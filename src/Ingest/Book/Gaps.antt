-- ===== src/Ingest/Book/Gaps.antt =====
-- Sequence numbers of deltas: what a gap, a regression and a contiguous delta do to a book, for one
-- delta and for a run of them. `apply_delta` is `todo!()` in the source, so the theorems on
-- `receive_delta_with` hold for every function in its place.
use kalshi_alpha.Prelude.{
  ℕ, suc, ◌+◌, ◌-◌, ◌^◌, ◌≤◌, ◌<◌, ◌≡◌, ◌⊎◌, inl, inr, refl, true, false, Option, none, some, List,
  [], ◌∷◌, arith, Exec, done, panics, and_then, Option-cases, Exec-cases, subst, ◌∙◌, ap,
}
use kalshi_alpha.Common.Px.{Px}
use kalshi_alpha.Common.Qty.{Qty}
use kalshi_alpha.Common.Ticker.{Side}
use kalshi_alpha.Ingest.Book.Types.{
  OrderBook, DeltaOutcome, applied, gapped, discarded_invalid, regression,
}
use kalshi_alpha.Ingest.Book.Pricing.{Convention}
use kalshi_alpha.Ingest.Book.{levels, note_grid, classify_seq, react, receive_delta_with}

-- A sequenced delta, as `receive_delta` takes it.
pub record Delta : Type 0 where
  pub seq : ℕ
  pub side : Side
  pub price : Px
  pub change : Qty

module _ {c : Convention} (apply : OrderBook c → Side → Px → Qty → Exec (OrderBook c)) where
  -- A run of deltas, with the outcome of each.
  unfoldable pub receive_all : OrderBook c → List Delta → Exec (OrderBook c × List DeltaOutcome)
  unfolding receive_delta_with
  receive_all b [] = done (b, [])
  receive_all b (d ∷ ds) =
      and_then (receive_delta_with apply b d.seq d.side d.price d.change) λ (b', outcome).
        and_then (receive_all b' ds) λ (b'', outcomes). done (b'', outcome ∷ outcomes)

-- One entry of `discarded_invalid` for each delta.
abbrev pub all_discarded : List Delta → List DeltaOutcome
all_discarded [] = []
all_discarded (d ∷ ds) = discarded_invalid ∷ all_discarded ds

abbrev pub count_applied : List DeltaOutcome → ℕ
count_applied [] = 0
count_applied (applied ∷ os) = suc (count_applied os)
count_applied (o ∷ os) = count_applied os

-- No delta was missed or thrown away.
abbrev pub IsLossless : DeltaOutcome → Type 0
IsLossless applied = Unit
IsLossless (regression prior got) = Unit
IsLossless o = ⊥

module _ {c : Convention} (b : OrderBook c) (seq : ℕ) where
  pub classify_invalid : b.valid ≡ false → classify_seq b seq ≡ done discarded_invalid
  unfolding classify_seq
  classify_invalid v = ground arith

  pub classify_first : b.valid ≡ true → b.last_seq ≡ none → classify_seq b seq ≡ done applied
  unfolding classify_seq
  classify_first v l = ground arith

  pub classify_max : b.valid ≡ true → b.last_seq ≡ some (2 ^ 64 - 1) → classify_seq b seq ≡ panics
  unfolding classify_seq
  classify_max v l = ground arith

  module _ (prior : ℕ) (v : b.valid ≡ true) (l : b.last_seq ≡ some prior)
      (h : prior < 2 ^ 64 - 1) where
    pub classify_next : seq ≡ prior + 1 → classify_seq b seq ≡ done applied
    unfolding classify_seq
    classify_next e = ground arith

    pub classify_regression : seq ≤ prior → classify_seq b seq ≡ done (regression prior seq)
    unfolding classify_seq
    classify_regression e = ground arith

    pub classify_gap : prior + 1 < seq → classify_seq b seq ≡ done (gapped (prior + 1) seq)
    unfolding classify_seq
    classify_gap e = ground arith

-- The sequence number follows the last one directly, or is the first.
abbrev pub Follows : Option ℕ → ℕ → Type 0
Follows none seq = Unit
Follows (some prior) seq = seq ≡ prior + 1

-- What each outcome says of the book before it.
abbrev pub Classified : {c : Convention} → OrderBook c → ℕ → DeltaOutcome → Type 0
Classified b seq applied = (b.valid ≡ true) × Follows b.last_seq seq
Classified b seq (gapped expected got) =
    (b.valid ≡ true)
    × (p : ℕ) × (b.last_seq ≡ some p)
    × (expected ≡ p + 1)
    × (got ≡ seq)
    × (p + 1 < seq)
Classified b seq discarded_invalid = b.valid ≡ false
Classified b seq (regression prior got) =
    (b.valid ≡ true) × (b.last_seq ≡ some prior) × (got ≡ seq) × (seq ≤ prior)

-- What each outcome does to the book.
abbrev pub Reacted : {c : Convention} → OrderBook c → ℕ → OrderBook c → DeltaOutcome → Type 0
Reacted b seq b' applied = b'.last_seq ≡ some seq
Reacted b seq b' (gapped expected got) = b' ≡ record b { valid = false; last_seq = some seq }
Reacted b seq b' discarded_invalid = b' ≡ b
Reacted b seq b' (regression prior got) = b' ≡ b

pub classify_seq_inv :
    {c : Convention} (b : OrderBook c) (seq : ℕ) (o : DeltaOutcome)
    → classify_seq b seq ≡ done o
    → Classified b seq o
unfolding classify_seq
classify_seq_inv b seq applied h = elim (Option-cases b.last_seq) [
  | inl l ↦ (ground arith, rw l tt)
  | inr (p, l) ↦ (ground arith, rw l (ground arith))
]
classify_seq_inv b seq (gapped expected got) h = elim (Option-cases b.last_seq) [
  | inl l ↦ absurd (ground arith)
  | inr (p, l) ↦ (ground arith, p, l, ground arith, ground arith, ground arith)
]
classify_seq_inv b seq discarded_invalid h = ground arith
classify_seq_inv b seq (regression prior got) h =
    (ground arith, ground arith, ground arith, ground arith)

module _ {c : Convention} (b : OrderBook c) (seq : ℕ) where
  pub classify_panics_inv :
      classify_seq b seq ≡ panics → (b.valid ≡ true) × (b.last_seq ≡ some (2 ^ 64 - 1))
  unfolding classify_seq
  classify_panics_inv h = elim (Option-cases b.last_seq) [
    | inl l ↦ absurd (ground arith)
    | inr (p, l) ↦ (ground arith, ground arith)
  ]

  pub classify-Follows :
      b.valid ≡ true
      → Follows b.last_seq seq
      → (classify_seq b seq ≡ done applied) ⊎ (classify_seq b seq ≡ panics)
  unfolding classify_seq
  classify-Follows v f = elim (Option-cases b.last_seq) [
    | inl l ↦ inl (ground arith)
    | inr (p, l) ↦ let e = rw l at f in ground arith
  ]

module _ {c : Convention} (apply : OrderBook c → Side → Px → Qty → Exec (OrderBook c)) where
  react_inv :
      (b : OrderBook c) (d : Delta) (o : DeltaOutcome) (b' : OrderBook c) (o' : DeltaOutcome)
      → react apply b d.seq d.side d.price d.change o ≡ done (b', o')
      → (o ≡ o') × Reacted b d.seq b' o
  unfolding react
  react_inv b d applied b' o' h = elim (Exec-cases (note_grid b d.price)) [
    | inl (b₁, n) ↦ elim (Exec-cases (apply b₁ d.side d.price d.change)) [
      | inl (b₂, a) ↦ (ground arith, ground arith)
      | inr a ↦ absurd (ground arith)
    ]
    | inr n ↦ absurd (ground arith)
  ]
  react_inv b d (gapped expected got) b' o' h = (ground arith, ground arith)
  react_inv b d discarded_invalid b' o' h = (ground arith, ground arith)
  react_inv b d (regression prior got) b' o' h = (ground arith, ground arith)

  pub receive_inv :
      (b : OrderBook c) (d : Delta) (b' : OrderBook c) (o : DeltaOutcome)
      → receive_delta_with apply b d.seq d.side d.price d.change ≡ done (b', o)
      → Classified b d.seq o × Reacted b d.seq b' o
  unfolding receive_delta_with
  receive_inv b d b' o h = elim (Exec-cases (classify_seq b d.seq)) [
    | inl (k, e) ↦
        let (same, r) = react_inv b d k b' o (rw (e) at h) in
        (classify_seq_inv b d.seq o (e ∙ ap done same), subst (Reacted b d.seq b') same r)
    | inr e ↦ absurd (ground arith)
  ]

  receive_invalid :
      (b : OrderBook c) (d : Delta)
      → b.valid ≡ false
      → receive_delta_with apply b d.seq d.side d.price d.change ≡ done (b, discarded_invalid)
  unfolding receive_delta_with react
  receive_invalid b d v = rw (classify_invalid b d.seq v, receive_delta_with) refl

  -- An invalid book discards every delta of a run, and neither changes nor becomes readable.
  pub receive_all_invalid :
      (b : OrderBook c) (ds : List Delta)
      → b.valid ≡ false
      → receive_all apply b ds ≡ done (b, all_discarded ds)
  unfolding receive_all
  receive_all_invalid b [] v = refl
  receive_all_invalid b (d ∷ ds) v =
      rw (receive_invalid b d v, receive_all) (rw (receive_all_invalid b ds v, receive_all) refl)

  -- On a readable book with a last sequence number, a delta that skips a number, itself a `u64`, is
  -- not applied: the book keeps its levels, takes the number
  -- as its last, and hides its levels from that point on, whatever deltas follow.
  pub receive_delta_gap :
      (b : OrderBook c) (d : Delta) (ds : List Delta) (prior : ℕ)
      → b.valid ≡ true
      → b.last_seq ≡ some prior
      → prior + 1 < d.seq
      → d.seq < 2 ^ 64
      → (b' : OrderBook c) × (receive_all apply b (d ∷ ds)
          ≡ done (b', gapped (prior + 1) d.seq ∷ all_discarded ds))
        × (b' ≡ record b { valid = false; last_seq = some d.seq })
        × (levels b' ≡ none)
  unfolding receive_all receive_delta_with react levels
  receive_delta_gap b d ds prior v l g u =
      let b' = record b { valid = false; last_seq = some d.seq } in
      (
        b',
        rw (classify_gap b d.seq prior v l (omega arith) g, receive_all, receive_delta_with)
            (rw (receive_all_invalid b' ds refl, receive_all) refl),
        refl,
        refl,
      )

  -- A delta at or below the last sequence number of a readable book, which is below the greatest `u64`,
  -- is dropped: the book stays as it
  -- is, and its last sequence number is not taken back.
  pub receive_delta_regression :
      (b : OrderBook c) (d : Delta) (prior : ℕ)
      → b.valid ≡ true
      → b.last_seq ≡ some prior
      → d.seq ≤ prior
      → prior < 2 ^ 64 - 1
      → receive_delta_with apply b d.seq d.side d.price d.change ≡ done (b, regression prior d.seq)
  unfolding receive_delta_with react
  receive_delta_regression b d prior v l h u =
      rw (classify_regression b d.seq prior v l u h, receive_delta_with) refl
