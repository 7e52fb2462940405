-- ===== src/Ingest/Registry/Entries.antt =====
-- The entries of the registry: a sid is registered afresh, and retired for good.
use kalshi_alpha.Prelude.{
  ℕ, ◌≡◌, ◌≢◌, ◌↔◌, ◌⊎◌, inl, inr, refl, false, none, some, List, [], ◌∷◌, arith, ℤ, All, ◌==◌,
  if◌then◌else◌, Bool-cases, sym, subst, ==_iff, ap, ◌∙◌,
}
use mathlib.Core.Option.{some-injective}
use kalshi_alpha.Prelude.Text.{Text}
use kalshi_alpha.Ingest.Subscription.{SubscriptionState, registered}
use kalshi_alpha.Ingest.Registry.{
  BySid, insert_sid, get_sid, remove_sid, SubscriptionRegistry, register, retire, get, invalid_of,
  invalid_sids,
}

-- No entry has the key.
abbrev pub Absent : ℕ → BySid → Type 0
Absent sid = All (λ e. e.0 ≢ sid)

-- Every key occurs once, as in every map, and is the sid of its state.
abbrev pub IsKeyed : BySid → Type 0
IsKeyed [] = Unit
IsKeyed ((k, v) ∷ m) = Absent k m × (v.sid ≡ k) × IsKeyed m

get-insert :
    (sid : ℕ) (s : SubscriptionState) (m : BySid) → get_sid sid (insert_sid sid s m) ≡ some s
unfolding get_sid insert_sid
get-insert sid s [] = ground arith
get-insert sid s ((k, v) ∷ m) = ground (arith, get-insert sid s m)

get-insert_other :
    (sid other : ℕ) (s : SubscriptionState) (m : BySid)
    → other ≢ sid
    → get_sid other (insert_sid sid s m) ≡ get_sid other m
unfolding get_sid insert_sid
get-insert_other sid other s [] h = ground arith
get-insert_other sid other s ((k, v) ∷ m) h = ground (arith, get-insert_other sid other s m h)

get_Absent : (sid : ℕ) (m : BySid) → Absent sid m → get_sid sid m ≡ none
unfolding get_sid
get_Absent sid [] h = refl
get_Absent sid ((k, v) ∷ m) h = ground (arith, h.0, get_Absent sid m h.1)

get-remove : (sid : ℕ) (m : BySid) → IsKeyed m → get_sid sid (remove_sid sid m) ≡ none
unfolding get_sid remove_sid
get-remove sid [] h = refl
get-remove sid ((k, v) ∷ m) h = elim (Bool-cases (k == sid)) [
  | inl e ↦ rw (e) (get_Absent sid m (subst (λ x. Absent x m) ((==_iff k sid).0 e) h.0))
  | inr e ↦ ground (arith, get-remove sid m h.2)
]

get-remove_other :
    (sid other : ℕ) (m : BySid) → other ≢ sid → get_sid other (remove_sid sid m) ≡ get_sid other m
unfolding get_sid remove_sid
get-remove_other sid other [] h = refl
get-remove_other sid other ((k, v) ∷ m) h = ground (arith, get-remove_other sid other m h)

insert-Absent :
    (sid k : ℕ) (s : SubscriptionState) (m : BySid)
    → k ≢ sid
    → Absent k m
    → Absent k (insert_sid sid s m)
unfolding insert_sid
insert-Absent sid k s [] h a = (λ e. h (sym e), tt)
insert-Absent sid k s ((k', v) ∷ m) h (n, a) = elim (Bool-cases (k' == sid)) [
  | inl e ↦ rw (e) (n, a)
  | inr e ↦ rw (e) (n, insert-Absent sid k s m h a)
]

insert-IsKeyed :
    (sid : ℕ) (s : SubscriptionState) (m : BySid)
    → s.sid ≡ sid
    → IsKeyed m
    → IsKeyed (insert_sid sid s m)
unfolding insert_sid
insert-IsKeyed sid s [] e h = (tt, e, tt)
insert-IsKeyed sid s ((k, v) ∷ m) e (a, n, h) = elim (Bool-cases (k == sid)) [
  | inl x ↦ rw (x) (a, ground arith, h)
  | inr x ↦ rw (x) (insert-Absent sid k s m (ground arith) a, n, insert-IsKeyed sid s m e h)
]

remove-Absent : (sid k : ℕ) (m : BySid) → Absent k m → Absent k (remove_sid sid m)
unfolding remove_sid
remove-Absent sid k [] a = tt
remove-Absent sid k ((k', v) ∷ m) (n, a) = elim (Bool-cases (k' == sid)) [
  | inl e ↦ rw (e) a
  | inr e ↦ rw (e) (n, remove-Absent sid k m a)
]

remove-IsKeyed : (sid : ℕ) (m : BySid) → IsKeyed m → IsKeyed (remove_sid sid m)
unfolding remove_sid
remove-IsKeyed sid [] h = tt
remove-IsKeyed sid ((k, v) ∷ m) (a, n, h) = elim (Bool-cases (k == sid)) [
  | inl e ↦ rw (e) h
  | inr e ↦ rw (e) (remove-Absent sid k m a, n, remove-IsKeyed sid m h)
]

-- Registering a sid stores a fresh state under it, invalid, without a sequence number and with no
-- gaps, whatever the registry held under that sid; it changes no other entry, and keeps every key
-- single.
pub register_fresh :
    (r : SubscriptionRegistry) (sid : ℕ) (channel : Text) (markets : List Text) (now : ℤ)
    (other : ℕ)
    → IsKeyed r.by_sid
    → (get (register r sid channel markets now) other
        ≡ (if other == sid then some (registered sid channel markets now) else get r other))
      × IsKeyed (register r sid channel markets now).by_sid
unfolding register get registered
register_fresh r sid channel markets now other k = (
  elim (Bool-cases (other == sid)) [
    | inl e ↦ rw (e) (rw ((==_iff other sid).0 e) (get-insert sid _ r.by_sid))
    | inr e ↦ rw (e) (get-insert_other sid other _ r.by_sid (ground arith))
  ],
  insert-IsKeyed sid _ r.by_sid refl k,
)

-- Retiring a sid returns the state it had and leaves nothing under it; it changes no other entry,
-- and keeps every key single.
pub retire_forgets :
    (r : SubscriptionRegistry) (sid other : ℕ)
    → IsKeyed r.by_sid
    → ((retire r sid).1 ≡ get r sid)
      × (get (retire r sid).0 other ≡ (if other == sid then none else get r other))
      × IsKeyed (retire r sid).0.by_sid
unfolding retire get
retire_forgets r sid other k = (
  refl,
  elim (Bool-cases (other == sid)) [
    | inl e ↦ rw (e) (rw ((==_iff other sid).0 e) (get-remove sid r.by_sid k))
    | inr e ↦ rw (e) (get-remove_other sid other r.by_sid (ground arith))
  ],
  remove-IsKeyed sid r.by_sid k,
)

abbrev pub IsIn : ℕ → List ℕ → Type 0
IsIn x [] = ⊥
IsIn x (y ∷ ys) = (y ≡ x) ⊎ IsIn x ys

get_behind :
    (sid key : ℕ) (v s : SubscriptionState) (m : BySid)
    → Absent key m
    → get_sid sid m ≡ some s
    → get_sid sid ((key, v) ∷ m) ≡ some s
unfolding get_sid
get_behind sid key v s m a g = elim (Bool-cases (key == sid)) [
  | inl e ↦
      let missing = get_Absent sid m (subst (λ x. Absent x m) ((==_iff key sid).0 e) a) in
      absurd (some-≢-none (sym g ∙ missing))
  | inr e ↦ rw (e) g
]
  where
    some-≢-none : some s ≡ none → ⊥
    some-≢-none h = cc

invalid_present :
    (sid : ℕ) (m : BySid)
    → IsKeyed m
    → IsIn sid (invalid_of m)
    → (s : SubscriptionState) × (get_sid sid m ≡ some s) × (s.valid ≡ false)
unfolding invalid_of get_sid
invalid_present sid [] k h = absurd h
invalid_present sid ((key, v) ∷ m) (a, n, k) h =
    let behind : IsIn sid (invalid_of m)
        → (s : SubscriptionState) × (get_sid sid ((key, v) ∷ m) ≡ some s) × (s.valid ≡ false) =
      λ later.
        let (s, g, f) = invalid_present sid m k later in (s, get_behind sid key v s m a g, f) in
    elim (Bool-cases v.valid) [
      | inl e ↦ behind (rw (e, invalid_of) at h)
      | inr e ↦ elim (rw (e, invalid_of) at h) [
        | inl same ↦ (v, ground arith, e)
        | inr later ↦ behind later
      ]
    ]

present_invalid :
    (sid : ℕ) (m : BySid) (s : SubscriptionState)
    → get_sid sid m ≡ some s
    → s.valid ≡ false
    → IsIn sid (invalid_of m)
unfolding invalid_of get_sid
present_invalid sid [] s e v = absurd (cc)
present_invalid sid ((key, w) ∷ m) s e v = elim (Bool-cases (key == sid)) [
  | inl x ↦
      let same = some-injective _ _ (rw (x) at e) in
      rw (ap (λ y. y.valid) same ∙ v) (inl ((==_iff key sid).0 x))
  | inr x ↦
      let later = present_invalid sid m s (rw (x) at e) v in
      elim (Bool-cases w.valid) [ inl y ↦ rw (y) later | inr y ↦ rw (y) (inr later) ]
]

-- The sids reported as unusable are exactly those of the registered subscriptions that are invalid.
pub invalid_sids_iff :
    (r : SubscriptionRegistry) (sid : ℕ)
    → IsKeyed r.by_sid
    → IsIn sid (invalid_sids r)
      ↔ ((s : SubscriptionState) × (get r sid ≡ some s) × (s.valid ≡ false))
unfolding invalid_sids get
invalid_sids_iff r sid k =
    (invalid_present sid r.by_sid k, λ (s, e, v). present_invalid sid r.by_sid s e v)
