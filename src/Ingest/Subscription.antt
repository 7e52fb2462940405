-- ===== src/Ingest/Subscription.antt =====
-- crates/ingest/src/ws.rs: the sequence stream of one subscription, `SubscriptionState`. Times and
-- durations are exact integers; counters of events are unbounded numbers; `last + 1` panics at the
-- greatest `u64`.
pub mod Streams
pub mod Clock
pub mod Examples
use kalshi_alpha.Prelude.{
  ℕ, ◌+◌, ◌-◌, ◌^◌, Bool, true, false, Option, none, some, List, [], ◌∷◌, ltb, leb, ◌==◌,
  if◌then◌else◌, ℤ, ◌+ℤ◌, ◌-ℤ◌, Exec, done, panics, and_then,
}
use kalshi_alpha.Prelude.Text.{Text}

pub record SubscriptionState : Type 0 where
  pub sid : ℕ
  pub channel : Text
  pub markets : List Text
  pub last_seq : Option ℕ
  pub valid : Bool
  pub gaps : ℕ
  pub invalid_since : Option ℤ
  pub invalid_total : ℤ

pub data SeqOutcome : Type 0 where
  in_order first : SeqOutcome
  gap : (expected got skipped : ℕ) → SeqOutcome
  regression : (last got : ℕ) → SeqOutcome

unfoldable pub invalid_duration : SubscriptionState → ℤ → ℤ
invalid_duration s now = elim s.invalid_since [
  | none ↦ s.invalid_total
  | some since ↦ s.invalid_total +ℤ (now -ℤ since)
]

unfoldable pub invalidate : SubscriptionState → ℤ → SubscriptionState
invalidate s now = if s.valid then record s { valid = false; invalid_since = some now } else s

-- The first `match` of `observe_seq`.
pub outcome_of : Option ℕ → ℕ → Exec SeqOutcome
outcome_of none seq = done first
outcome_of (some last) seq =
    if last == 2 ^ 64 - 1
    then panics
    else done (
        if seq == last + 1
        then in_order
        else if leb seq last
        then regression last seq
        else gap (last + 1) seq (seq - last - 1))

-- Its second `match`.
pub record_outcome : SubscriptionState → ℕ → ℤ → SeqOutcome → SubscriptionState
unfolding invalidate
record_outcome s seq now (gap expected got skipped) =
    record (invalidate (record s { gaps = s.gaps + 1 }) now) { last_seq = some seq }
record_outcome s seq now (regression last got) = s
record_outcome s seq now first = record s { last_seq = some seq }
record_outcome s seq now in_order = record s { last_seq = some seq }

unfoldable pub observe_seq : SubscriptionState → ℕ → ℤ → Exec (SubscriptionState × SeqOutcome)
unfolding outcome_of record_outcome
observe_seq s seq now =
    and_then (outcome_of s.last_seq seq) λ outcome. done (record_outcome s seq now outcome, outcome)

-- `self.invalid_since.take()`, and what is added to the total.
pub close_window : SubscriptionState → ℤ → SubscriptionState
close_window s now = elim s.invalid_since [
  | none ↦ s
  | some since ↦ record s {
    invalid_since = none;
    invalid_total = s.invalid_total +ℤ (now -ℤ since);
  }
]

unfoldable pub accept_snapshot : SubscriptionState → ℕ → ℤ → SubscriptionState
unfolding close_window
accept_snapshot s seq now =
    let s' = record s { last_seq = some seq } in
    if s.valid then s' else record (close_window s' now) { valid = true }

-- The state that `SubscriptionRegistry::register` stores.
unfoldable pub registered : ℕ → Text → List Text → ℤ → SubscriptionState
registered sid channel markets now = record {
  sid = sid;
  channel = channel;
  markets = markets;
  last_seq = none;
  valid = false;
  gaps = 0;
  invalid_since = some now;
  invalid_total = ℤ.pos 0;
}
