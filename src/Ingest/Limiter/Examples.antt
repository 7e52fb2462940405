-- ===== src/Ingest/Limiter/Examples.antt =====
-- The theorems on the token bucket at a bucket of 30 tokens that earns 20 in a second.
use kalshi_alpha.Prelude.{ℕ, ◌+◌, ◌*◌, ◌≤◌, ◌≡◌, refl, List, [], ◌∷◌, arith, pos, ◌+ℤ◌, ◌-ℤ◌}
use kalshi_alpha.Ingest.Limiter.{milli, Bucket, new_bucket, credit_for, refill, wait_for, spend}
use kalshi_alpha.Ingest.Limiter.Rate.{acquire_all, acquire_all_bounded}
use kalshi_alpha.Ingest.Limiter.Starvation.{refill_all, refill_all-Frequent}

abbrev requests : List (ℕ × ℕ)
requests = (10, 1_000_000) ∷ (20, 2_000_000) ∷ (10, 600_000_000) ∷ []

-- All three are granted: the third after half a second.
requests_granted : (acquire_all (new_bucket 20 30 0) requests).1 ≡ 40
unfolding acquire_all new_bucket wait_for refill ◌+ℤ◌ credit_for spend ◌-ℤ◌
requests_granted = refl

acquire_all_bounded_example :
    ((acquire_all (new_bucket 20 30 0) requests).1 * 1_000_000_000 + 20 * 0
      ≤ 30 * 1_000_000_000 + 20 * (acquire_all (new_bucket 20 30 0) requests).0.last_refill)
    × ((t : ℕ) × ((acquire_all (new_bucket 20 30 0) requests).0.tokens ≡ pos t) × (t ≤ 30 * milli))
acquire_all_bounded_example = acquire_all_bounded 20 30 0 requests (omega arith) (omega arith)

abbrev too_dear : List (ℕ × ℕ)
too_dear = (31, 1_000_000) ∷ (31, 90_000_000_000) ∷ []

abbrev drained : Bucket
drained = record { tokens = pos 0; capacity = 30_000; refill_rate = 20_000; last_refill = 0 }

abbrev readings : List ℕ
readings = 900_000 ∷ 1_800_000 ∷ 2_700_000 ∷ []

refill_all-Frequent_example : (refill_all drained readings).tokens ≡ pos 0
refill_all-Frequent_example =
    refill_all-Frequent drained readings 0 refl (omega arith) (omega arith)
      (omega arith, omega arith, (omega arith, omega arith, (omega arith, omega arith, tt)))
