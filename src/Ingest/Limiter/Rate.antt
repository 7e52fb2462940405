-- ===== src/Ingest/Limiter/Rate.antt =====
-- The bucket never grants more than its capacity and its rate allow.
use native.Mathlib.Nat.{mul-le-mul_left}
use kalshi_alpha.Prelude.{
  ℕ, ◌+◌, ◌-◌, ◌*◌, ◌/◌, ◌^◌, ◌≤◌, ◌<◌, ◌≡◌, refl, true, false, Option, none, some, List, [], ◌∷◌,
  arith, Bool-cases, inl, inr, pos, ◌+ℤ◌, ◌-ℤ◌, sym, subst, ap, ◌==◌, leb, saturate_i64, ◌∙◌,
  leb→le,
}
use kalshi_alpha.Ingest.Limiter.{
  milli, i64_greatest, nanos_per_milli, Bucket, min, min_ℤ, new_bucket, credit_for, refill,
  wait_for, spend, acquire_step,
}

-- The tokens are between zero and the capacity, which is an `i64`.
abbrev pub IsFilled : Bucket → Type 0
IsFilled b = (t : ℕ) × (b.tokens ≡ pos t) × (t ≤ b.capacity) × (b.capacity ≤ i64_greatest)

-- The tokens that a turn of the loop has granted.
abbrev pub granted : ℕ → Option ℕ → ℕ
granted cost none = cost
granted cost (some wait) = 0

credit_bound : (rate elapsed : ℕ) → credit_for rate elapsed * 1_000_000_000 ≤ rate * elapsed
unfolding credit_for
credit_bound rate elapsed =
    let millis = min (elapsed / nanos_per_milli) i64_greatest in
    let fine : millis * nanos_per_milli ≤ elapsed = ground arith in
    let c : min (rate * millis) i64_greatest / 1_000 * 1_000 ≤ rate * millis = ground arith in
    omega (arith, mul-le-mul_left rate fine, c)

add_capped :
    (t c cap : ℕ)
    → t ≤ cap
    → cap ≤ i64_greatest
    → min_ℤ (saturate_i64 (pos t +ℤ pos c)) (pos cap) ≡ pos (min (t + c) cap)
unfolding ◌+ℤ◌
add_capped t c cap h k = ground arith

-- A wait of zero is one that the tokens cover.
pub wait_none :
    (b : Bucket) (cost t : ℕ) → b.tokens ≡ pos t → (wait_for b cost == 0) ≡ true → cost * milli ≤ t
unfolding wait_for
wait_none b cost t e z = elim (Bool-cases (leb (cost * milli) t)) [
  | inl l ↦ leb→le _ _ l
  | inr l ↦ absurd (ground arith)
]

spend_covered : (t c : ℕ) → c ≤ t → t ≤ i64_greatest → saturate_i64 (pos t -ℤ pos c) ≡ pos (t - c)
unfolding ◌-ℤ◌
spend_covered t c h k = ground arith

module _ (b : Bucket) (now t : ℕ) (e : b.tokens ≡ pos t) (h : t ≤ b.capacity)
    (k : b.capacity ≤ i64_greatest) where
  pub refill_later :
      ((now - b.last_refill) == 0) ≡ false
      → refill b now ≡ record b {
        tokens = pos (min (t + credit_for b.refill_rate (now - b.last_refill)) b.capacity);
        last_refill = now;
      }
  unfolding refill
  refill_later z =
      rw (z, refill)
        (λ i. record b {
          tokens =
              (ap
                    (λ x.
                      min_ℤ
                        (saturate_i64 (x +ℤ pos (credit_for b.refill_rate (now - b.last_refill))))
                        (pos b.capacity))
                    e
                  ∙ add_capped t _ b.capacity h k)
                i;
          last_refill = now;
        })

  -- What a refill leaves in the bucket.
  pub refill_filled :
      (t' : ℕ) × ((refill b now).tokens ≡ pos t')
      × (t' ≤ b.capacity)
      × ((refill b now).capacity ≡ b.capacity)
      × ((refill b now).refill_rate ≡ b.refill_rate)
      × (t' * 1_000_000_000 + b.refill_rate * b.last_refill
          ≤ t * 1_000_000_000 + b.refill_rate * (refill b now).last_refill)
  unfolding refill
  refill_filled = elim (Bool-cases ((now - b.last_refill) == 0)) [
    | inl z ↦ rw (z, refill) (t, e, h, refl, refl, omega arith)
    | inr z ↦
        let credit = credit_for b.refill_rate (now - b.last_refill) in
        rw (refill_later z) (
          min (t + credit) b.capacity,
          refl,
          ground arith,
          refl,
          refl,
          later credit (credit_bound _ _) (ground arith),
        )
  ]
    where
      later :
          (credit : ℕ)
          → credit * 1_000_000_000 ≤ b.refill_rate * (now - b.last_refill)
          → b.last_refill < now
          → min (t + credit) b.capacity * 1_000_000_000 + b.refill_rate * b.last_refill
            ≤ t * 1_000_000_000 + b.refill_rate * now
      later credit le lt =
          let e = now - b.last_refill in
          let split : now ≡ e + b.last_refill = omega arith in
          let spread : b.refill_rate * now ≡ b.refill_rate * e + b.refill_rate * b.last_refill =
            subst (λ x. b.refill_rate * x ≡ b.refill_rate * e + b.refill_rate * b.last_refill)
              (sym split) (omega arith) in
          let m : min (t + credit) b.capacity ≤ t + credit = ground arith in
          omega (arith, spread, m, le)

  -- A turn of the loop grants only what the refilled bucket holds.
  pub step_filled :
      (cost : ℕ)
      → (t' : ℕ) × ((acquire_step b cost now).0.tokens ≡ pos t')
        × (t' ≤ b.capacity)
        × ((acquire_step b cost now).0.capacity ≡ b.capacity)
        × ((acquire_step b cost now).0.refill_rate ≡ b.refill_rate)
        × ((granted cost (acquire_step b cost now).1 * milli + t') * 1_000_000_000
              + b.refill_rate * b.last_refill
            ≤ t * 1_000_000_000 + b.refill_rate * (acquire_step b cost now).0.last_refill)
  unfolding acquire_step wait_for spend
  step_filled cost = elim (Bool-cases (wait_for (refill b now) cost == 0)) [
    | inl z ↦
        rw (z, acquire_step)
          (let (t', e', h', c, r, p) = refill_filled in
            let covered = wait_none (refill b now) cost t' e' z in
            (
              t' - cost * milli,
              ap (λ x. saturate_i64 (x -ℤ pos (cost * milli))) e'
                  ∙ spend_covered t' (cost * milli) covered (omega (arith, h', k)),
              omega (arith, h'),
              c,
              r,
              omega (arith, p, covered),
            ))
    | inr z ↦
        rw (z, acquire_step)
          (let (t', e', h', c, r, p) = refill_filled in (t', e', h', c, r, omega (arith, p)))
  ]

-- Requests with their costs and the clock readings they are tried at: the bucket after them, and the
-- tokens granted.
unfoldable pub acquire_all : Bucket → List (ℕ × ℕ) → Bucket × ℕ
unfolding acquire_step
acquire_all b [] = (b, 0)
acquire_all b ((cost, now) ∷ rest) =
    let (b', wait) = acquire_step b cost now in
    let (b'', total) = acquire_all b' rest in (b'', granted cost wait + total)

acquire_all_filled :
    (b : Bucket) (rs : List (ℕ × ℕ)) (t : ℕ)
    → b.tokens ≡ pos t
    → t ≤ b.capacity
    → b.capacity ≤ i64_greatest
    → (t' : ℕ) × ((acquire_all b rs).0.tokens ≡ pos t')
      × (t' ≤ b.capacity)
      × (((acquire_all b rs).1 * milli + t') * 1_000_000_000 + b.refill_rate * b.last_refill
          ≤ t * 1_000_000_000 + b.refill_rate * (acquire_all b rs).0.last_refill)
unfolding acquire_all
acquire_all_filled b [] t e h k = (t, e, h, omega arith)
acquire_all_filled b ((cost, now) ∷ rs) t e h k =
    let (t₁, e₁, h₁, c, r, p) = step_filled b now t e h k cost in
    let b₁ = (acquire_step b cost now).0 in
    let (t', e', h', p') = acquire_all_filled b₁ rs t₁ e₁ (omega (arith, c)) (omega (arith, c)) in
    let rates = ap (λ x. x * b₁.last_refill) r in
    let rates' = ap (λ x. x * (acquire_all b₁ rs).0.last_refill) r in
    (t', e', omega (arith, c, h'), omega (arith, p, p', rates, rates'))

-- For a rate and a capacity below 2^32, however requests come and whatever the clock shows, the
-- tokens granted by a bucket that starts full are at most its capacity and what its rate earns in the time until its last refill; and its
-- tokens are never below zero or above its capacity.
pub acquire_all_bounded :
    (rate capacity start : ℕ) (rs : List (ℕ × ℕ))
    → rate < 2 ^ 32
    → capacity < 2 ^ 32
    → ((acquire_all (new_bucket rate capacity start) rs).1 * 1_000_000_000 + rate * start
        ≤ capacity * 1_000_000_000
          + rate * (acquire_all (new_bucket rate capacity start) rs).0.last_refill)
      × ((t : ℕ) × ((acquire_all (new_bucket rate capacity start) rs).0.tokens ≡ pos t)
          × (t ≤ capacity * milli))
unfolding new_bucket
acquire_all_bounded rate capacity start rs hr hc =
    let (t, e, h, p) =
      acquire_all_filled (new_bucket rate capacity start) rs (capacity * milli) refl (omega arith)
        (omega arith) in
    (omega (arith, p), (t, e, h))
