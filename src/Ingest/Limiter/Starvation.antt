-- ===== src/Ingest/Limiter/Starvation.antt =====
-- Where the bucket starves a caller: a cost above its capacity, and clock readings that are too close.
use kalshi_alpha.Prelude.{
  ℕ, ◌+◌, ◌-◌, ◌*◌, ◌/◌, ◌^◌, ◌≤◌, ◌<◌, ◌≡◌, refl, List, [], ◌∷◌, arith, Bool-cases, inl, inr, All,
  All-imp, subst, sym, ap, pos, ◌==◌,
}
use kalshi_alpha.Ingest.Limiter.{
  milli, i64_greatest, nanos_per_milli, Bucket, new_bucket, credit_for, refill, wait_for,
  acquire_step,
}
use kalshi_alpha.Ingest.Limiter.Rate.{
  refill_filled, refill_later, step_filled, wait_none, acquire_all, granted,
}

step_starved :
    (b : Bucket) (cost now t : ℕ)
    → b.tokens ≡ pos t
    → t ≤ b.capacity
    → b.capacity ≤ i64_greatest
    → b.capacity < cost * milli
    → granted cost (acquire_step b cost now).1 ≡ 0
unfolding acquire_step
step_starved b cost now t e h k a = elim (Bool-cases (wait_for (refill b now) cost == 0)) [
  | inl z ↦
      let (t', e', h', c, r, p) = refill_filled b now t e h k in
      absurd (omega (arith, wait_none (refill b now) cost t' e' z, h', a))
  | inr z ↦ rw (z, acquire_step) refl
]

acquire_all_starved :
    (b : Bucket) (rs : List (ℕ × ℕ)) (t : ℕ)
    → b.tokens ≡ pos t
    → t ≤ b.capacity
    → b.capacity ≤ i64_greatest
    → All (λ r. b.capacity < r.0 * milli) rs
    → (acquire_all b rs).1 ≡ 0
unfolding acquire_all
acquire_all_starved b [] t e h k a = refl
acquire_all_starved b ((cost, now) ∷ rs) t e h k (a, later) =
    let (t₁, e₁, h₁, c, r, p) = step_filled b now t e h k cost in
    let rest =
      acquire_all_starved (acquire_step b cost now).0 rs t₁ e₁ (omega (arith, c, h₁))
        (omega (arith, c, k)) (All-imp (λ x lt. omega (arith, c, lt)) rs later) in
    omega (arith, step_starved b cost now t e h k a, rest)

-- Requests whose costs are above a capacity below 2^32 are never granted, at whatever times.
pub acquire_beyond_capacity :
    (rate capacity start : ℕ) (rs : List (ℕ × ℕ))
    → capacity < 2 ^ 32
    → All (λ r. capacity < r.0) rs
    → (acquire_all (new_bucket rate capacity start) rs).1 ≡ 0
unfolding new_bucket
acquire_beyond_capacity rate capacity start rs hc a =
    acquire_all_starved (new_bucket rate capacity start) rs (capacity * milli) refl (omega arith)
      (omega arith) (All-imp (λ x lt. omega (arith, lt)) rs a)

-- The bucket after refills at a list of clock readings.
unfoldable pub refill_all : Bucket → List ℕ → Bucket
refill_all b [] = b
refill_all b (now ∷ rest) = refill_all (refill b now) rest

-- Each reading is less than a millisecond after the one before it.
abbrev pub Frequent : ℕ → List ℕ → Type 0
Frequent previous [] = Unit
Frequent previous (now ∷ rest) =
    (previous ≤ now) × (now < previous + nanos_per_milli) × Frequent now rest

mul_zero : (n : ℕ) → n * 0 ≡ 0
mul_zero n = omega arith

no_credit : (rate elapsed : ℕ) → elapsed < nanos_per_milli → credit_for rate elapsed ≡ 0
unfolding credit_for
no_credit rate elapsed h =
    let zero_millis : elapsed / nanos_per_milli ≡ 0 = omega arith in
    rw (zero_millis, credit_for) (rw (mul_zero rate) refl)

refill_frequent :
    (b : Bucket) (now t : ℕ)
    → b.tokens ≡ pos t
    → t ≤ b.capacity
    → b.capacity ≤ i64_greatest
    → b.last_refill ≤ now
    → now < b.last_refill + nanos_per_milli
    → ((refill b now).tokens ≡ pos t)
      × ((refill b now).last_refill ≡ now)
      × ((refill b now).capacity ≡ b.capacity)
unfolding refill
refill_frequent b now t e h k f g = elim (Bool-cases ((now - b.last_refill) == 0)) [
  | inl z ↦ rw (z, refill) (e, ground arith, refl)
  | inr z ↦
      let none_earned = no_credit b.refill_rate (now - b.last_refill) (omega arith) in
      rw (refill_later b now t e h k z) (ap pos (rw (none_earned) (ground arith)), refl, refl)
]

-- A bucket with tokens between zero and a capacity that fits `i64`, refilled at readings each less
-- than a millisecond after the one before, keeps its tokens, however much time goes by in all.
pub refill_all-Frequent :
    (b : Bucket) (nows : List ℕ) (t : ℕ)
    → b.tokens ≡ pos t
    → t ≤ b.capacity
    → b.capacity ≤ i64_greatest
    → Frequent b.last_refill nows
    → (refill_all b nows).tokens ≡ pos t
unfolding refill_all
refill_all-Frequent b [] t e h k f = e
refill_all-Frequent b (now ∷ nows) t e h k (f, g, fs) =
    let (tokens, last, cap) = refill_frequent b now t e h k f g in
    refill_all-Frequent (refill b now) nows t tokens (omega (arith, cap, h)) (omega (arith, cap, k))
      (subst (λ x. Frequent x nows) (sym last) fs)
