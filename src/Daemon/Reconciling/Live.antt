-- ===== src/Daemon/Reconciling/Live.antt =====
-- The set of markets that a reconnection of bin/capture.rs subscribes to has every known market.
use kalshi_alpha.Prelude.{
  ◌≡◌, refl, ap, subst, ◌∙◌, true, false, not, ◌&&◌, ◌||◌, List, [], ◌∷◌, map, All, Result, ok, err,
  ℤ, arith, Bool-cases, inl, inr,
}
use kalshi_alpha.Prelude.Text.{Text, text_eq, text_eq_refl, text_eq_sound}
use kalshi_alpha.Common.Ticker.{Ticker, TickerError, parse}
use kalshi_alpha.Ingest.Client.{RestError}
use kalshi_alpha.Ingest.Client.Discovery.{Json, DiscoveryPass, contains_text}
use kalshi_alpha.Ingest.Client.Discovery.Unique.{IsUnique}
use kalshi_alpha.Ingest.Markets.{
  MarketRegistry, Reconciliation, empty_registry, contains, reconcile, is_clean,
}
use kalshi_alpha.Ingest.Markets.Reconcile.{
  contains_ticker, contains-reconcile, clean-reconcile, contains-observe_startup,
}
use kalshi_alpha.Daemon.Subscribing.{contains_key, fresh_among}
use kalshi_alpha.Daemon.Subscribing.Fresh.{
  contains-append, Apart, IsUnique-append, contains-fresh_among, fresh_among-IsUnique,
}
use kalshi_alpha.Daemon.Reconciling.{
  keep_ok, parse_each, insert_new, Reconciler, start, seen_in, on_result, tick, ticks,
}

contains-insert_new :
    (m : Text) (ms live : List Text)
    → contains_text m (insert_new ms live).0 ≡ contains_text m live || contains_text m ms
unfolding insert_new
contains-insert_new m [] live = ground arith
contains-insert_new m (x ∷ ms) live =
    ground
      (arith, contains-insert_new m ms live, contains-insert_new m ms (x ∷ live), text_eq_sound x m)

-- What is new is what is fresh in an empty set of books.
newly-fresh : (ms live : List Text) → (insert_new ms live).1 ≡ fresh_among [] ms live
unfolding insert_new fresh_among contains_key
newly-fresh [] live = refl
newly-fresh (x ∷ ms) live = elim (Bool-cases (contains_text x live)) [
  | inl e ↦ rw e (newly-fresh ms live)
  | inr e ↦ rw e (ap (λ l. x ∷ l) (newly-fresh ms (x ∷ live)))
]

contains-newly :
    (m : Text) (ms live : List Text)
    → contains_text m (insert_new ms live).1 ≡ (contains_text m ms && not (contains_text m live))
unfolding contains_key
contains-newly m ms live =
    rw (newly-fresh ms live) (contains-fresh_among m [] ms live ∙ ground arith)

contains-texts :
    (t : Ticker) (ts : List Ticker)
    → contains_text t.text (map (λ u. u.text) ts) ≡ contains_ticker t ts
contains-texts t [] = refl
contains-texts t (u ∷ ts) = ap (λ b. text_eq u.text t.text || b) (contains-texts t ts)

-- A text that parses as a ticker is the text of that ticker.
abbrev pub IsCanonical : Text → Type 0
IsCanonical m = (t : Ticker) → parse m ≡ ok t → t.text ≡ m

parsed_among :
    (t : Ticker) (ms : List Text)
    → All IsCanonical ms
    → contains_ticker t (parse_each ms) ≡ true
    → contains_text t.text ms ≡ true
unfolding parse_each
parsed_among t [] c h = absurd (cc)
parsed_among t (m ∷ ms) c h = go (parse m) refl (parsed_among t ms c.1) h
  where
    go :
        (r : Result TickerError Ticker)
        → parse m ≡ r
        → (contains_ticker t (parse_each ms) ≡ true → contains_text t.text ms ≡ true)
        → contains_ticker t (keep_ok r (parse_each ms)) ≡ true
        → contains_text t.text (m ∷ ms) ≡ true
    go (err e) p rest k = ground (arith, rest k)
    go (ok u) p rest k = elim (Bool-cases (text_eq u.text t.text)) [
      | inl e ↦
          rw (subst (λ x. x ≡ m) (text_eq_sound u.text t.text e) (c.0 u p))
            (ground (arith, text_eq_refl m))
      | inr e ↦ ground (arith, rest (rw e at k))
    ]

-- Every known market is live; the live ones are those at the start and those handed over since,
-- each of which is handed over once.
pub record IsLive (initial : List Text) (s : Reconciler) : Type 0 where
  pub known :
      (t : Ticker) → contains s.registry t ≡ true → contains_text t.text s.live_markets ≡ true
  pub live :
      (m : Text)
      → contains_text m s.live_markets ≡ contains_text m initial || contains_text m s.sent
  pub once : IsUnique s.sent
  pub apart : Apart initial s.sent

empty_knows : (t : Ticker) → contains empty_registry t ≡ false
unfolding contains
empty_knows t = refl

start-IsLive :
    (initial : List Text) (now : ℤ) → All IsCanonical initial → IsLive initial (start initial now)
unfolding start
start-IsLive initial now c = record {
  known = λ t h. ground (
    arith,
    contains-insert_new t.text initial [],
    contains-observe_startup empty_registry (parse_each initial) now t,
    empty_knows t,
    parsed_among t initial c,
    h,
  );
  live = λ m. ground (arith, contains-insert_new m initial []);
  once = tt;
  apart = λ m h. refl;
}

module _ (json : Json) (initial : List Text) where
  tick-IsLive :
      (s : Reconciler) (passes : List (Result RestError (DiscoveryPass json))) (now : ℤ)
      → IsLive initial s
      → IsLive initial (tick json s passes now)
  unfolding tick
  tick-IsLive s passes now i =
      go (reconcile s.registry (seen_in json passes) now)
        (contains-reconcile s.registry (seen_in json passes) now)
        (clean-reconcile s.registry (seen_in json passes) now)
    where
      go :
          (r : MarketRegistry × Reconciliation)
          → ((u : Ticker)
              → (contains r.0 u ≡ contains s.registry u || contains_ticker u (seen_in json passes))
                × (contains_ticker u r.1.newly_known
                    ≡ contains_ticker u (seen_in json passes) && not (contains s.registry u)))
          → (is_clean r.1 ≡ true → (u : Ticker) → contains_ticker u r.1.newly_known ≡ false)
          → IsLive initial (on_result json s r)
      go (registry, result) k clean = elim (Bool-cases (is_clean result)) [
        | inl e ↦ rw e (record {
          known = λ t h. i.known t (ground (arith, h, (k t).0, (k t).1, clean e t));
          live = i.live;
          once = i.once;
          apart = i.apart;
        })
        | inr e ↦
            let texts = map (λ (t : Ticker). t.text) result.newly_known in
            let newly = (insert_new texts s.live_markets).1 in
            let inside = λ (m : Text). contains-newly m texts s.live_markets in
            rw e (record {
              known = λ t h. ground (
                arith,
                contains-insert_new t.text texts s.live_markets,
                contains-texts t result.newly_known,
                h,
                (k t).0,
                (k t).1,
                i.known t,
              );
              live = λ m. ground (
                arith,
                contains-insert_new m texts s.live_markets,
                i.live m,
                inside m,
                contains-append m s.sent newly,
              );
              once =
                  IsUnique-append s.sent newly i.once
                    (rw (newly-fresh texts s.live_markets)
                      (fresh_among-IsUnique [] texts s.live_markets))
                    (λ m h. ground (arith, inside m, i.live m, h));
              apart = λ m h.
                  ground
                    (arith, contains-append m s.sent newly, i.apart m h, inside m, i.live m, h);
            })
      ]

  pub ticks-IsLive :
      (s : Reconciler) (passes : List (List (Result RestError (DiscoveryPass json)) × ℤ))
      → IsLive initial s
      → IsLive initial (ticks json s passes)
  ticks-IsLive s [] i = i
  ticks-IsLive s ((p, now) ∷ more) i = ticks-IsLive (tick json s p now) more (tick-IsLive s p now i)

  -- When the initial markets that parse are the texts of their tickers, then after any ticks,
  -- whatever discovery answers, every market that the registry knows is in the set that the next
  -- connection subscribes to; that set has the initial markets and those handed over since, of which
  -- none was initial and none is handed over twice.
  pub reconcile_task_lem :
      (now : ℤ) (passes : List (List (Result RestError (DiscoveryPass json)) × ℤ))
      → All IsCanonical initial
      → IsLive initial (ticks json (start initial now) passes)
  reconcile_task_lem now passes c =
      ticks-IsLive (start initial now) passes (start-IsLive initial now c)
