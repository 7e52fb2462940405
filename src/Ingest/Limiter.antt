-- ===== src/Ingest/Limiter.antt =====
-- The token bucket of crates/ingest/src/rest.rs. An `Instant` is its nanoseconds, and so is a
-- `Duration`. The capacity and the rate are products of `u32`s and a positive constant, so natural
-- numbers below 2^63; the tokens are an `i64`.
pub mod Rate
pub mod Starvation
pub mod Examples
use kalshi_alpha.Prelude.{
  ℕ, ◌+◌, ◌-◌, ◌*◌, ◌/◌, ◌^◌, Bool, true, false, Option, none, some, List, [], ◌∷◌, ltb, leb, ◌==◌,
  if◌then◌else◌, ℤ, pos, ◌+ℤ◌, ◌-ℤ◌, leb_ℤ, saturate_i64, magnitude,
}

-- Tokens are held in thousandths.
abbrev pub milli : ℕ
milli = 1_000

abbrev pub i64_greatest : ℕ
i64_greatest = 2 ^ 63 - 1

abbrev pub nanos_per_milli : ℕ
nanos_per_milli = 1_000_000

-- `Duration::MAX`
abbrev pub duration_max : ℕ
duration_max = 2 ^ 64 * 1_000_000_000 - 1

pub record Bucket : Type 0 where
  pub tokens : ℤ
  pub capacity : ℕ
  pub refill_rate : ℕ
  pub last_refill : ℕ

abbrev pub min : ℕ → ℕ → ℕ
min a b = if leb a b then a else b

abbrev pub min_ℤ : ℤ → ℤ → ℤ
min_ℤ a b = if leb_ℤ a b then a else b

-- `Bucket::new`: the bucket starts full.
unfoldable pub new_bucket : ℕ → ℕ → ℕ → Bucket
new_bucket refill_rate_tokens capacity_tokens now =
    let capacity = capacity_tokens * milli in
    record {
      tokens = pos capacity;
      capacity = capacity;
      refill_rate = refill_rate_tokens * milli;
      last_refill = now;
    }

-- What an elapsed time is worth.
unfoldable pub credit_for : ℕ → ℕ → ℕ
credit_for refill_rate elapsed =
    let millis = min (elapsed / nanos_per_milli) i64_greatest in
    min (refill_rate * millis) i64_greatest / 1_000

unfoldable pub refill : Bucket → ℕ → Bucket
refill b now =
    let elapsed = now - b.last_refill in
    if elapsed == 0 then b else record b {
      tokens =
          min_ℤ (saturate_i64 (b.tokens +ℤ pos (credit_for b.refill_rate elapsed)))
            (pos b.capacity);
      last_refill = now;
    }

unfoldable pub wait_for : Bucket → ℕ → ℕ
wait_for b cost_tokens =
    let cost = cost_tokens * milli in
    if leb_ℤ (pos cost) b.tokens
    then 0
    else if b.refill_rate == 0
    then duration_max
    else let deficit = magnitude (pos cost -ℤ b.tokens) in
      let millis = min (deficit * 1_000) i64_greatest / b.refill_rate in
      (if leb millis 1 then 1 else millis) * nanos_per_milli

unfoldable pub spend : Bucket → ℕ → Bucket
spend b cost_tokens = record b { tokens = saturate_i64 (b.tokens -ℤ pos (cost_tokens * milli)) }

-- One turn of the loop of `RateLimiter::acquire`, at the time of its clock reading: granted, or how
-- long to sleep.
unfoldable pub acquire_step : Bucket → ℕ → ℕ → Bucket × Option ℕ
acquire_step b cost_tokens now =
    let b' = refill b now in
    let wait = wait_for b' cost_tokens in
    if wait == 0 then (spend b' cost_tokens, none) else (b', some wait)

-- `RateLimiter::reconfigure`
abbrev pub reconfigure : Bucket → ℕ → ℕ → ℕ → Bucket
reconfigure b refill_rate_tokens capacity_tokens now =
    new_bucket refill_rate_tokens capacity_tokens now
