-- ===== src/Ingest/Book/Runs.antt =====
-- Whole runs of deltas on a book, and where `receive_delta` panics.
use kalshi_alpha.Prelude.{
  ℕ, ◌+◌, ◌-◌, ◌^◌, ◌≤◌, ◌≡◌, ◌↔◌, ◌⊎◌, inl, inr, refl, true, false, Option, none, some, List, [],
  ◌∷◌, arith, Exec, done, panics, All, Option-cases, Exec-cases, subst, sym, ◌∙◌, ap,
  done-injective,
}
use kalshi_alpha.Common.Px.{Px}
use kalshi_alpha.Common.Qty.{Qty}
use kalshi_alpha.Common.Ticker.{Side}
use kalshi_alpha.Ingest.Book.Types.{
  OrderBook, DeltaOutcome, applied, gapped, discarded_invalid, regression,
}
use kalshi_alpha.Ingest.Book.Pricing.{Convention}
use kalshi_alpha.Ingest.Book.{
  note_grid, classify_seq, react, apply_delta, receive_delta_with, receive_delta,
}
use kalshi_alpha.Ingest.Book.Gaps.{
  Delta, receive_all, receive_all_invalid, receive_inv, classify_max, classify_seq_inv,
  classify-Follows, classify_panics_inv, count_applied, IsLossless, Classified, Reacted, Follows,
}

-- The last sequence number as a number, and 0 before the first.
abbrev pub mark : Option ℕ → ℕ
mark none = 0
mark (some n) = n + 1

module _ {c : Convention} (apply : OrderBook c → Side → Px → Qty → Exec (OrderBook c)) where
  receive_all_inv :
      (b : OrderBook c) (d : Delta) (ds : List Delta) (b' : OrderBook c) (os : List DeltaOutcome)
      → receive_all apply b (d ∷ ds) ≡ done (b', os)
      → (b₁ : OrderBook c) × (o : DeltaOutcome) × (os' : List DeltaOutcome) × (receive_delta_with
            apply b d.seq d.side d.price d.change
          ≡ done (b₁, o))
        × (receive_all apply b₁ ds ≡ done (b', os'))
        × (os ≡ o ∷ os')
  unfolding receive_all
  receive_all_inv b d ds b' os h =
      elim (Exec-cases (receive_delta_with apply b d.seq d.side d.price d.change)) [
        | inl ((b₁, o), e) ↦ elim (Exec-cases (receive_all apply b₁ ds)) [
          | inl ((b₂, os'), e') ↦
              let same = done-injective _ _ (rw (e, e') at h) in
              (
                b₁,
                o,
                os',
                e,
                e' ∙ ap (λ x. done (x, os')) (ap (λ x. x.0) same),
                sym (ap (λ x. x.1) same),
              )
          | inr e' ↦ absurd (ground arith)
        ]
        | inr e ↦ absurd (ground arith)
      ]

  final_invalid :
      (b : OrderBook c) (ds : List Delta) (b' : OrderBook c) (os : List DeltaOutcome)
      → b.valid ≡ false
      → receive_all apply b ds ≡ done (b', os)
      → b'.valid ≡ false
  final_invalid b ds b' os v h =
      let same = done-injective _ _ (sym (receive_all_invalid apply b ds v) ∙ h) in
      sym (ap (λ x. x.0.valid) same) ∙ v

  mark_step :
      (b : OrderBook c) (d : Delta) (b' : OrderBook c) (o : DeltaOutcome)
      → Classified b d.seq o
      → Reacted b d.seq b' o
      → mark b.last_seq ≤ mark b'.last_seq
  mark_step b d b' applied k r = elim (Option-cases b.last_seq) [
    | inl l ↦ rw l (omega arith)
    | inr (p, l) ↦ rw l (rw r (let f = rw l at k.1 in omega arith))
  ]
  mark_step b d b' (gapped expected got) (v, p, l, x, g, f) r =
      rw l (rw (ap (λ x. x.last_seq) r) (omega arith))
  mark_step b d b' discarded_invalid k r = rw (ap (λ x. x.last_seq) r) (omega arith)
  mark_step b d b' (regression prior got) k r = rw (ap (λ x. x.last_seq) r) (omega arith)

  -- Over any run of deltas that does not panic, the last sequence number of a book never decreases.
  pub receive_all-mark :
      (b : OrderBook c) (ds : List Delta) (b' : OrderBook c) (os : List DeltaOutcome)
      → receive_all apply b ds ≡ done (b', os)
      → mark b.last_seq ≤ mark b'.last_seq
  unfolding receive_all
  receive_all-mark b [] b' os h =
      subst (λ x. mark b.last_seq ≤ mark x.last_seq) (ap (λ x. x.0) (done-injective _ _ h))
        (omega arith)
  receive_all-mark b (d ∷ ds) b' os h =
      let (b₁, o, os', e, e', s) = receive_all_inv b d ds b' os h in
      let (k, r) = receive_inv apply b d b₁ o e in
      omega (arith, mark_step b d b₁ o k r, receive_all-mark b₁ ds b' os' e')

  -- If a book is readable at the end of a run of deltas that started at a last sequence number, then
  -- every delta of the run was applied or was a repetition, and the last sequence number has
  -- advanced by one for each that was applied: a readable book has missed nothing.
  pub receive_all_contiguous :
      (b : OrderBook c) (ds : List Delta) (b' : OrderBook c) (os : List DeltaOutcome) (prior : ℕ)
      → b.last_seq ≡ some prior
      → receive_all apply b ds ≡ done (b', os)
      → b'.valid ≡ true
      → All IsLossless os × (b'.last_seq ≡ some (prior + count_applied os))
  unfolding receive_all
  receive_all_contiguous b [] b' os prior l h v =
      let same = done-injective _ _ h in
      (
        subst (All IsLossless) (ap (λ x. x.1) same) tt,
        subst (λ x. x.0.last_seq ≡ some (prior + count_applied x.1)) same
            (l ∙ ap some (omega arith)),
      )
  receive_all_contiguous b (d ∷ ds) b' os prior l h v =
      let (b₁, o, os', e, e', s) = receive_all_inv b d ds b' os h in
      let (k, r) = receive_inv apply b d b₁ o e in
      rw (s) (step o os' b₁ (λ p l'. receive_all_contiguous b₁ ds b' os' p l' e' v) k r e')
    where
      unreadable : b'.valid ≡ false → ⊥
      unreadable f = cc

      step :
          (o : DeltaOutcome) (os' : List DeltaOutcome) (b₁ : OrderBook c)
          → ((p : ℕ)
              → b₁.last_seq ≡ some p
              → All IsLossless os' × (b'.last_seq ≡ some (p + count_applied os')))
          → Classified b d.seq o
          → Reacted b d.seq b₁ o
          → receive_all apply b₁ ds ≡ done (b', os')
          → All IsLossless (o ∷ os') × (b'.last_seq ≡ some (prior + count_applied (o ∷ os')))
      step applied os' b₁ later k r e' =
          let (all, last) = later d.seq r in
          let f = rw l at k.1 in ((tt, all), last ∙ ap some (omega arith))
      step (gapped expected got) os' b₁ later k r e' =
          absurd (unreadable (final_invalid b₁ ds b' os' (ap (λ x. x.valid) r) e'))
      step discarded_invalid os' b₁ later k r e' =
          absurd (unreadable (final_invalid b₁ ds b' os' (ap (λ x. x.valid) r ∙ k) e'))
      step (regression p got) os' b₁ later k r e' =
          let (all, last) = later prior (ap (λ x. x.last_seq) r ∙ l) in ((tt, all), last)

-- `receive_delta` panics exactly on a readable book whose last sequence number is the greatest `u64`,
-- or that the delta follows directly or as the first; every other delta returns.
pub receive_delta_panics_iff :
    {c : Convention} (b : OrderBook c) (seq : ℕ) (side : Side) (price : Px) (change : Qty)
    → (receive_delta b seq side price change ≡ panics)
      ↔ ((b.valid ≡ true) × ((b.last_seq ≡ some (2 ^ 64 - 1)) ⊎ Follows b.last_seq seq))
unfolding receive_delta receive_delta_with apply_delta react classify_seq
receive_delta_panics_iff b seq side price change = (λ h. only h, λ h. panic h.0 h.1)
  where
    panic :
        b.valid ≡ true
        → (b.last_seq ≡ some (2 ^ 64 - 1)) ⊎ Follows b.last_seq seq
        → receive_delta b seq side price change ≡ panics
    panic v (inl l) = rw (classify_max b seq v l, receive_delta, receive_delta_with) refl
    panic v (inr f) = elim (classify-Follows b seq v f) [
      | inl e ↦
          rw (e, receive_delta, receive_delta_with)
            (elim (Exec-cases (note_grid b price)) [
              | inl (b₁, n) ↦ rw (n, react) refl
              | inr n ↦ rw (n, react) refl
            ])
      | inr e ↦ rw (e, receive_delta, receive_delta_with) refl
    ]

    only :
        receive_delta b seq side price change ≡ panics
        → (b.valid ≡ true) × ((b.last_seq ≡ some (2 ^ 64 - 1)) ⊎ Follows b.last_seq seq)
    only h = elim (Exec-cases (classify_seq b seq)) [
      | inl (applied, e) ↦ let k = classify_seq_inv b seq applied e in (k.0, inr k.1)
      | inl (gapped x y, e) ↦ absurd (cc (rw (e, receive_delta, receive_delta_with) at h))
      | inl (discarded_invalid, e) ↦ absurd (cc (rw (e, receive_delta, receive_delta_with) at h))
      | inl (regression x y, e) ↦ absurd (cc (rw (e, receive_delta, receive_delta_with) at h))
      | inr e ↦ let k = classify_panics_inv b seq e in (k.0, inl k.1)
    ]
