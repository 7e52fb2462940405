-- ===== src/Ingest/Subscription/Streams.antt =====
-- Runs of sequence numbers on one subscription.
use kalshi_alpha.Prelude.{
  ℕ, suc, ◌+◌, ◌≡◌, some, List, [], ◌∷◌, arith, Exec, done, and_then, Exec-cases, inl, inr, ℤ, ◌&&◌,
  ◌==◌, done-injective, subst, ap, sym, ◌∙◌,
}
use kalshi_alpha.Ingest.Subscription.{
  SubscriptionState, SeqOutcome, in_order, first, gap, regression, invalidate, record_outcome,
  observe_seq, outcome_of,
}

-- A run of sequence numbers with the times they came at.
unfoldable pub observe_all :
    SubscriptionState → List (ℕ × ℤ) → Exec (SubscriptionState × List SeqOutcome)
unfolding observe_seq
observe_all s [] = done (s, [])
observe_all s ((seq, now) ∷ rest) = and_then (observe_seq s seq now) λ (s', outcome).
    and_then (observe_all s' rest) λ (s'', outcomes). done (s'', outcome ∷ outcomes)

abbrev pub count_gaps : List SeqOutcome → ℕ
count_gaps [] = 0
count_gaps (gap expected got skipped ∷ os) = suc (count_gaps os)
count_gaps (o ∷ os) = count_gaps os

abbrev pub count_in_order : List SeqOutcome → ℕ
count_in_order [] = 0
count_in_order (in_order ∷ os) = suc (count_in_order os)
count_in_order (o ∷ os) = count_in_order os

-- The messages that the gaps of a run report as missing.
abbrev pub count_skipped : List SeqOutcome → ℕ
count_skipped [] = 0
count_skipped (gap expected got skipped ∷ os) = skipped + count_skipped os
count_skipped (o ∷ os) = count_skipped os

-- What a run does to a subscription: its outcomes account for every number between the last one
-- before it and the last one after it.
abbrev pub Accounts : SubscriptionState → ℕ → SubscriptionState → List SeqOutcome → Type 0
Accounts s prior s' os =
    (s'.last_seq ≡ some (prior + count_in_order os + count_gaps os + count_skipped os))
    × (s'.gaps ≡ s.gaps + count_gaps os)
    × (s'.valid ≡ (s.valid && count_gaps os == 0))

module _ (s : SubscriptionState) (seq : ℕ) (now : ℤ) where
  outcome-Accounts :
      (prior : ℕ) (o : SeqOutcome)
      → s.last_seq ≡ some prior
      → outcome_of s.last_seq seq ≡ done o
      → (l : ℕ) × ((record_outcome s seq now o).last_seq ≡ some l)
        × Accounts s prior (record_outcome s seq now o) (o ∷ [])
  unfolding outcome_of record_outcome invalidate
  outcome-Accounts prior (gap expected got skipped) l h =
      (seq, ground arith, (ground arith, ground arith, ground arith))
  outcome-Accounts prior (regression last got) l h =
      (prior, ground arith, (ground arith, ground arith, ground arith))
  outcome-Accounts prior first l h = absurd (ground arith)
  outcome-Accounts prior in_order l h =
      (seq, ground arith, (ground arith, ground arith, ground arith))

  pub observe_seq_inv :
      (s' : SubscriptionState) (o : SeqOutcome)
      → observe_seq s seq now ≡ done (s', o)
      → (outcome_of s.last_seq seq ≡ done o) × (record_outcome s seq now o ≡ s')
  unfolding observe_seq
  observe_seq_inv s' o h = elim (Exec-cases (outcome_of s.last_seq seq)) [
    | inl (k, e) ↦
        let same = done-injective _ _ (rw (e, observe_seq) at h) in
        (
          e ∙ ap (λ x. done x.1) same,
          ap (record_outcome s seq now) (sym (ap (λ x. x.1) same)) ∙ ap (λ x. x.0) same,
        )
    | inr e ↦ absurd (ground arith)
  ]

observe_all_inv :
    (s : SubscriptionState) (seq : ℕ) (now : ℤ) (rest : List (ℕ × ℤ)) (s' : SubscriptionState)
    (os : List SeqOutcome)
    → observe_all s ((seq, now) ∷ rest) ≡ done (s', os)
    → (s₁ : SubscriptionState) × (o : SeqOutcome) × (os' : List SeqOutcome) × (observe_seq s seq now
        ≡ done (s₁, o))
      × (observe_all s₁ rest ≡ done (s', os'))
      × (os ≡ o ∷ os')
unfolding observe_all
observe_all_inv s seq now rest s' os h = elim (Exec-cases (observe_seq s seq now)) [
  | inl ((s₁, o), e) ↦ elim (Exec-cases (observe_all s₁ rest)) [
    | inl ((s₂, os'), e') ↦
        let same = done-injective _ _ (rw (e, e') at h) in
        (s₁, o, os', e, e' ∙ ap (λ x. done (x, os')) (ap (λ x. x.0) same), sym (ap (λ x. x.1) same))
    | inr e' ↦ absurd (ground arith)
  ]
  | inr e ↦ absurd (ground arith)
]

Accounts-cons :
    (s s₁ s' : SubscriptionState) (prior l : ℕ) (o : SeqOutcome) (os : List SeqOutcome)
    → s₁.last_seq ≡ some l
    → Accounts s prior s₁ (o ∷ [])
    → Accounts s₁ l s' os
    → Accounts s prior s' (o ∷ os)
Accounts-cons s s₁ s' prior l (gap expected got skipped) os e (a, g, v) (b, g', v') =
    (ground arith, omega (arith, g, g'), v' ∙ ap (λ x. x && count_gaps os == 0) v ∙ ground arith)
Accounts-cons s s₁ s' prior l (regression last got) os e (a, g, v) (b, g', v') =
    (ground arith, omega (arith, g, g'), v' ∙ ap (λ x. x && count_gaps os == 0) v ∙ ground arith)
Accounts-cons s s₁ s' prior l first os e (a, g, v) (b, g', v') =
    (ground arith, omega (arith, g, g'), v' ∙ ap (λ x. x && count_gaps os == 0) v ∙ ground arith)
Accounts-cons s s₁ s' prior l in_order os e (a, g, v) (b, g', v') =
    (ground arith, omega (arith, g, g'), v' ∙ ap (λ x. x && count_gaps os == 0) v ∙ ground arith)

-- Over any run of sequence numbers that does not panic, the last sequence number advances by exactly
-- one for each message in order and, for each gap, by one more than it reports as skipped; the gap
-- counter advances by the number of gaps; and the subscription is valid at the end exactly when it was
-- valid at the start and the run saw no gap.
pub observe_all-Accounts :
    (s : SubscriptionState) (ms : List (ℕ × ℤ)) (s' : SubscriptionState) (os : List SeqOutcome)
    (prior : ℕ)
    → s.last_seq ≡ some prior
    → observe_all s ms ≡ done (s', os)
    → Accounts s prior s' os
unfolding observe_all
observe_all-Accounts s [] s' os prior l h =
    subst (λ x. Accounts s prior x.0 x.1) (done-injective _ _ h)
      (l ∙ ap some (omega arith), omega arith, ground arith)
observe_all-Accounts s ((seq, now) ∷ ms) s' os prior l h =
    let (s₁, o, os', e, e', same) = observe_all_inv s seq now ms s' os h in
    let (k, r) = observe_seq_inv s seq now s₁ o e in
    let (m, e₁, a) = outcome-Accounts s seq now prior o l k in
    let e₂ = subst (λ x. x.last_seq ≡ some m) r e₁ in
    subst (Accounts s prior s') (sym same) (
      Accounts-cons s s₁ s' prior m o os' e₂ (subst (λ x. Accounts s prior x (o ∷ [])) r a)
        (observe_all-Accounts s₁ ms s' os' m e₂ e'))
