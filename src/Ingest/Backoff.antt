-- ===== src/Ingest/Backoff.antt =====
-- crates/ingest/src/ws.rs: the waits between reconnections. A wait is its milliseconds. The spread
-- of a wait, which the source computes from its `f64` jitter, is a parameter, and so is the number
-- that `rand` draws.
pub mod Delays
use kalshi_alpha.Prelude.{
  ℕ, ◌+◌, ◌-◌, ◌*◌, ◌^◌, Bool, true, false, ◌==◌, if◌then◌else◌, List, [], ◌∷◌,
}
use kalshi_alpha.Ingest.Doubling.{min_of, doubled}

-- The jitter: whether it is above zero, and `(millis as f64 * jitter) as u64`.
pub record Jitter : Type 0 where
  pub is_positive : Bool
  pub spread : ℕ → ℕ

pub record Backoff : Type 0 where
  pub initial : ℕ
  pub max : ℕ
  pub jitter : Jitter
  pub current : ℕ

abbrev pub new_backoff : ℕ → ℕ → Jitter → Backoff
new_backoff initial max jitter = record {
  initial = initial;
  max = max;
  jitter = jitter;
  current = initial;
}

abbrev pub u64_max : ℕ
u64_max = 2 ^ 64 - 1

-- `u64::saturating_add`
abbrev pub saturating_add : ℕ → ℕ → ℕ
saturating_add a b = min_of (a + b) u64_max

-- The wait with its random part, `drawn` being what `random_range` gives.
abbrev pub jittered : Jitter → ℕ → ℕ → ℕ
jittered jitter base drawn =
    if jitter.is_positive
    then (let millis = min_of base u64_max in
        let spread = jitter.spread millis in
        if spread == 0 then base else saturating_add (millis - spread) drawn)
    else base

unfoldable pub next_delay : Backoff → ℕ → Backoff × ℕ
next_delay b drawn =
    (record b { current = doubled b.max b.current }, jittered b.jitter b.current drawn)

abbrev pub reset : Backoff → Backoff
reset b = record b { current = b.initial }

-- A run of failed connections, with what was drawn at each.
abbrev pub run_delays : Backoff → List ℕ → Backoff
run_delays b [] = b
run_delays b (drawn ∷ more) = run_delays (next_delay b drawn).0 more
