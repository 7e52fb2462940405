-- ===== src/Ingest/Backoff/Delays.antt =====
-- How long the reconnection of crates/ingest/src/ws.rs waits.
use kalshi_alpha.Prelude.{
  ℕ, ◌+◌, ◌-◌, ◌*◌, ◌^◌, ◌≤◌, ◌≡◌, refl, sym, subst, Bool, ◌==◌, if◌then◌else◌, List, [], ◌∷◌,
  length, arith,
}
use kalshi_alpha.Ingest.Doubling.{min_of, doubled, nth_wait, nth_wait_lem}
use kalshi_alpha.Ingest.Backoff.{
  Jitter, Backoff, new_backoff, u64_max, saturating_add, jittered, next_delay, run_delays,
}

pub run_delays-current :
    (b : Backoff) (drawn : List ℕ)
    → (run_delays b drawn).current ≡ nth_wait b.max b.current (length drawn)
unfolding next_delay
run_delays-current b [] = refl
run_delays-current b (d ∷ ds) =
    run_delays-current (record b { current = doubled b.max b.current }) ds

run_delays-jitter : (b : Backoff) (drawn : List ℕ) → (run_delays b drawn).jitter ≡ b.jitter
unfolding next_delay
run_delays-jitter b [] = refl
run_delays-jitter b (d ∷ ds) = run_delays-jitter (record b { current = doubled b.max b.current }) ds

around :
    (p : Bool) (base spread drawn : ℕ)
    → base ≤ u64_max
    → drawn ≤ 2 * spread
    → spread ≤ base
    → (base
        ≤ (if p then if spread == 0 then base else saturating_add (base - spread) drawn else base)
          + spread)
      × ((if p then if spread == 0 then base else saturating_add (base - spread) drawn else base)
          ≤ base + spread)
around p base spread drawn h k l = ground (arith)

jittered_within :
    (j : Jitter) (base drawn : ℕ)
    → base ≤ u64_max
    → drawn ≤ 2 * j.spread base
    → j.spread base ≤ base
    → (base ≤ jittered j base drawn + j.spread base)
      × (jittered j base drawn ≤ base + j.spread base)
jittered_within j base drawn h k l =
    let capped : min_of base u64_max ≡ base = ground (arith) in
    subst
      (λ m.
        (base
          ≤ (if j.is_positive
              then if j.spread m == 0 then base else saturating_add (m - j.spread m) drawn
              else base)
            + j.spread base)
        × ((if j.is_positive
              then if j.spread m == 0 then base else saturating_add (m - j.spread m) drawn
              else base)
            ≤ base + j.spread base))
      (sym capped) (around j.is_positive base (j.spread base) drawn h k l)

-- When the first wait is within the limit, the limit is a `u64`, no spread is above its wait and
-- what is drawn is within twice the spread, the wait after any number of failures differs by at most
-- the spread from the first wait doubled that often, up to the limit.
pub next_delay_lem :
    (initial max : ℕ) (jitter : Jitter) (failures : List ℕ) (drawn : ℕ)
    → initial ≤ max
    → max ≤ u64_max
    → ((n : ℕ) → jitter.spread n ≤ n)
    → drawn ≤ 2 * jitter.spread (min_of (initial * 2 ^ length failures) max)
    → (min_of (initial * 2 ^ length failures) max
        ≤ (next_delay (run_delays (new_backoff initial max jitter) failures) drawn).1
          + jitter.spread (min_of (initial * 2 ^ length failures) max))
      × ((next_delay (run_delays (new_backoff initial max jitter) failures) drawn).1
          ≤ min_of (initial * 2 ^ length failures) max
            + jitter.spread (min_of (initial * 2 ^ length failures) max))
unfolding next_delay
next_delay_lem initial max jitter failures drawn h k s d =
    let b = new_backoff initial max jitter in
    let base = min_of (initial * 2 ^ length failures) max in
    rw
      (
        run_delays-jitter b failures,
        run_delays-current b failures,
        nth_wait_lem max initial (length failures) h,
      )
      (jittered_within jitter base drawn (ground (arith)) d (s base))
