-- ===== src/Ingest/Markets/Reconcile.antt =====
-- What a reconciliation reports and what the registry of crates/ingest/src/rest.rs holds after it.
use kalshi_alpha.Prelude.{
  ◌≡◌, ◌↔◌, refl, ◌∙◌, inl, inr, Bool, true, false, ◌||◌, ◌&&◌, not, Option, none, some, List, [],
  ◌∷◌, ◌++◌, append-nil, append_assoc, arith, if◌then◌else◌, ℤ, Bool-cases, Option-cases,
}
use kalshi_alpha.Prelude.Text.{text_eq_refl, text_eq_sound}
use kalshi_alpha.Common.Ticker.{Ticker}
use kalshi_alpha.Ingest.Markets.{
  LearnedVia, startup_discovery, reconciliation, KnownMarket, MarketRegistry, eq_ticker, get_known,
  get, contains, insert, startup_loop, observe_startup, reconcile_loop, reconcile, is_clean,
  is_empty_list,
}

abbrev pub contains_ticker : Ticker → List Ticker → Bool
contains_ticker t [] = false
contains_ticker t (u ∷ us) = eq_ticker u t || contains_ticker t us

-- The tickers that a registry does not know, the first time that each occurs.
unfoldable pub unknown_among : MarketRegistry → LearnedVia → ℤ → List Ticker → List Ticker
unfolding insert
unknown_among r via at [] = []
unknown_among r via at (t ∷ ts) =
    let rest = unknown_among (insert r t via at).0 via at ts in
    if contains r t then rest else t ∷ rest

-- The entry that a lookup finds once the tickers are inserted.
abbrev entry_after : MarketRegistry → LearnedVia → ℤ → List Ticker → Ticker → Option KnownMarket
entry_after r via at ts u =
    if contains r u
    then get r u
    else if contains_ticker u ts
    then some (record { ticker = u; learned_via = via; first_seen_at = at })
    else none

get-insert :
    (r : MarketRegistry) (t u : Ticker) (via : LearnedVia) (at : ℤ)
    → get (insert r t via at).0 u ≡ entry_after r via at (t ∷ []) u
unfolding get insert contains get_known
get-insert r t u via at = ground (arith, text_eq_sound t.text u.text, text_eq_refl u.text)

insert_all : MarketRegistry → LearnedVia → ℤ → List Ticker → MarketRegistry
insert_all r via at [] = r
insert_all r via at (t ∷ ts) = insert_all (insert r t via at).0 via at ts

contains-insert :
    (r : MarketRegistry) (t u : Ticker) (via : LearnedVia) (at : ℤ)
    → contains (insert r t via at).0 u ≡ contains r u || eq_ticker t u
unfolding get insert contains get_known
contains-insert r t u via at = ground (arith, text_eq_sound t.text u.text, text_eq_refl u.text)

abbrev added_market : MarketRegistry → Ticker → LearnedVia → ℤ → MarketRegistry
added_market r t via at = record {
  known = (t, record { ticker = t; learned_via = via; first_seen_at = at }) ∷ r.known;
}

get_unknown : (r : MarketRegistry) (u : Ticker) → contains r u ≡ false → get r u ≡ none
unfolding get contains
get_unknown r u e = elim (Option-cases (get_known r.known u)) [
  | inl h ↦ h
  | inr (k, h) ↦ let y = rw h at e in absurd (cc)
]

get-insert_all :
    (r : MarketRegistry) (via : LearnedVia) (at : ℤ) (ts : List Ticker) (u : Ticker)
    → get (insert_all r via at ts) u ≡ entry_after r via at ts u
unfolding insert_all
get-insert_all r via at [] u = elim (Bool-cases (contains r u)) [
  | inl e ↦ rw e refl
  | inr e ↦ rw e (get_unknown r u e)
]
get-insert_all r via at (t ∷ ts) u =
    get-insert_all (insert r t via at).0 via at ts u
    ∙ rw (get-insert r t u via at, contains-insert r t u via at)
        (merge (contains r u) (eq_ticker t u) (contains_ticker u ts) (get r u) _)
  where
    merge :
        (a b c : Bool) (x y : Option KnownMarket)
        → (if a || b
            then (if a then x else if b || false then y else none)
            else if c
            then y
            else none)
          ≡ (if a then x else if b || c then y else none)
    merge true b c x y = refl
    merge false true c x y = refl
    merge false false c x y = refl

-- A ticker is among them when it is in the list and not known.
contains-unknown_among :
    (r : MarketRegistry) (via : LearnedVia) (at : ℤ) (ts : List Ticker) (u : Ticker)
    → contains_ticker u (unknown_among r via at ts) ≡ contains_ticker u ts && not (contains r u)
unfolding unknown_among
contains-unknown_among r via at [] u = refl
contains-unknown_among r via at (t ∷ ts) u = ground (
  arith,
  contains-unknown_among (insert r t via at).0 via at ts u,
  contains-insert r t u via at,
  text_eq_sound t.text u.text,
)

abbrev pub IsUnique : List Ticker → Type 0
IsUnique [] = Unit
IsUnique (t ∷ ts) = (contains_ticker t ts ≡ false) × IsUnique ts

unknown_among-IsUnique :
    (r : MarketRegistry) (via : LearnedVia) (at : ℤ) (ts : List Ticker)
    → IsUnique (unknown_among r via at ts)
unfolding unknown_among
unknown_among-IsUnique r via at [] = tt
unknown_among-IsUnique r via at (t ∷ ts) =
    first_once t (contains r t) (unknown_among (insert r t via at).0 via at ts)
      (ground (
        arith,
        contains-unknown_among (insert r t via at).0 via at ts t,
        contains-insert r t t via at,
        text_eq_refl t.text,
      ))
      (unknown_among-IsUnique (insert r t via at).0 via at ts)
  where
    first_once :
        (t : Ticker) (b : Bool) (rest : List Ticker)
        → contains_ticker t rest ≡ false
        → IsUnique rest
        → IsUnique (if b then rest else t ∷ rest)
    first_once t true rest h u = u
    first_once t false rest h u = (h, u)

reconcile_loop_lem :
    (r : MarketRegistry) (at : ℤ) (ts : List Ticker) (missed new : List Ticker)
    → reconcile_loop ts at r (record { missed_by_live_path = missed; newly_known = new }) ≡ (
      insert_all r reconciliation at ts,
      record {
        missed_by_live_path = missed ++ unknown_among r reconciliation at ts;
        newly_known = new ++ unknown_among r reconciliation at ts;
      },
    )
unfolding reconcile_loop unknown_among insert_all
reconcile_loop_lem r at [] missed new = rw (append-nil missed, append-nil new) refl
reconcile_loop_lem r at (t ∷ ts) missed new = elim (Bool-cases (contains r t)) [
  | inl e ↦ rw e (reconcile_loop_lem r at ts missed new)
  | inr e ↦ rw e (
      reconcile_loop_lem (added_market r t reconciliation at) at ts (missed ++ (t ∷ []))
        (new ++ (t ∷ []))
      ∙ rw
          (
            append_assoc missed (t ∷ [])
                (unknown_among (added_market r t reconciliation at) reconciliation at ts),
            append_assoc new (t ∷ [])
                (unknown_among (added_market r t reconciliation at) reconciliation at ts),
          )
          refl)
]

startup_loop_lem :
    (r : MarketRegistry) (at : ℤ) (ts added : List Ticker)
    → startup_loop ts at r added
      ≡ (insert_all r startup_discovery at ts, added ++ unknown_among r startup_discovery at ts)
unfolding startup_loop unknown_among insert_all
startup_loop_lem r at [] added = rw (append-nil added) refl
startup_loop_lem r at (t ∷ ts) added = elim (Bool-cases (contains r t)) [
  | inl e ↦ rw e (startup_loop_lem r at ts added)
  | inr e ↦ rw e (
      startup_loop_lem (added_market r t startup_discovery at) at ts (added ++ (t ∷ []))
      ∙ rw
          (append_assoc added (t ∷ [])
            (unknown_among (added_market r t startup_discovery at) startup_discovery at ts))
          refl)
]

-- After `reconcile`, a lookup finds the entry that was known before, or for a ticker of the pass
-- an entry with the source and the instant of the pass; the tickers reported as missed are
-- reported as new too, once each, and are those of the pass that were not known.
pub reconcile_lem :
    (r : MarketRegistry) (ts : List Ticker) (at : ℤ) (u : Ticker)
    → (get (reconcile r ts at).0 u ≡ entry_after r reconciliation at ts u)
      × (((reconcile r ts at).1.newly_known ≡ (reconcile r ts at).1.missed_by_live_path)
          × (IsUnique (reconcile r ts at).1.missed_by_live_path
              × (contains_ticker u (reconcile r ts at).1.missed_by_live_path
                  ≡ contains_ticker u ts && not (contains r u))))
unfolding reconcile
reconcile_lem r ts at u = rw (reconcile_loop_lem r at ts [] []) (
  get-insert_all r reconciliation at ts u,
  (
    refl,
    (
      unknown_among-IsUnique r reconciliation at ts,
      contains-unknown_among r reconciliation at ts u,
    ),
  ),
)

contains-insert_all :
    (r : MarketRegistry) (via : LearnedVia) (at : ℤ) (ts : List Ticker) (u : Ticker)
    → contains (insert_all r via at ts) u ≡ contains r u || contains_ticker u ts
unfolding insert_all
contains-insert_all r via at [] u = ground (arith)
contains-insert_all r via at (t ∷ ts) u =
    ground
      (arith, contains-insert_all (insert r t via at).0 via at ts u, contains-insert r t u via at)

no_member :
    (ts : List Ticker) → ((u : Ticker) → contains_ticker u ts ≡ false) → is_empty_list ts ≡ true
no_member [] h = refl
no_member (t ∷ ts) h = let e = h t in ground (arith, text_eq_refl t.text)

empty_no_member :
    (ts : List Ticker) (u : Ticker) → is_empty_list ts ≡ true → contains_ticker u ts ≡ false
empty_no_member [] u h = refl
empty_no_member (t ∷ ts) u h = absurd (cc)

-- A reconciliation after the discovery at startup is clean exactly when every ticker of its pass
-- was known before or was among those discovered.
pub reconcile_after_startup :
    (r : MarketRegistry) (ts us : List Ticker) (at later : ℤ)
    → (is_clean (reconcile (observe_startup r ts at).0 us later).1 ≡ true)
      ↔ ((u : Ticker) → contains_ticker u us ≡ true → (contains r u || contains_ticker u ts) ≡ true)
unfolding reconcile is_clean observe_startup
reconcile_after_startup r ts us at later =
    let r' = insert_all r startup_discovery at ts in
    rw (startup_loop_lem r at ts [], reconcile_loop_lem r' later us [] [])
      (
        (λ h u e. ground (
          arith,
          empty_no_member (unknown_among r' reconciliation later us) u h,
          contains-unknown_among r' reconciliation later us u,
          contains-insert_all r startup_discovery at ts u,
        )),
        (λ h. no_member (unknown_among r' reconciliation later us) (λ u. ground (
          arith,
          h u,
          contains-unknown_among r' reconciliation later us u,
          contains-insert_all r startup_discovery at ts u,
        ))),
      )

-- What the registry knows after a reconciliation, and what is new in it.
pub contains-reconcile :
    (r : MarketRegistry) (ts : List Ticker) (at : ℤ) (u : Ticker)
    → (contains (reconcile r ts at).0 u ≡ contains r u || contains_ticker u ts)
      × (contains_ticker u (reconcile r ts at).1.newly_known
          ≡ contains_ticker u ts && not (contains r u))
unfolding reconcile
contains-reconcile r ts at u =
    rw (reconcile_loop_lem r at ts [] []) (
      contains-insert_all r reconciliation at ts u,
      contains-unknown_among r reconciliation at ts u,
    )

pub clean-reconcile :
    (r : MarketRegistry) (ts : List Ticker) (at : ℤ)
    → is_clean (reconcile r ts at).1 ≡ true
    → (u : Ticker) → contains_ticker u (reconcile r ts at).1.newly_known ≡ false
unfolding reconcile is_clean
clean-reconcile r ts at h u = rw (reconcile_loop_lem r at ts [] []) (
    empty_no_member (unknown_among r reconciliation at ts) u
      (rw (reconcile_loop_lem r at ts [] []) at h))

pub contains-observe_startup :
    (r : MarketRegistry) (ts : List Ticker) (at : ℤ) (u : Ticker)
    → contains (observe_startup r ts at).0 u ≡ contains r u || contains_ticker u ts
unfolding observe_startup
contains-observe_startup r ts at u =
    rw (startup_loop_lem r at ts []) (contains-insert_all r startup_discovery at ts u)
