-- ===== src/Ingest/Subscription/Clock.antt =====
-- The time a subscription spends invalid.
use kalshi_alpha.Prelude.{
  ℕ, ◌≡◌, ◌⊎◌, refl, true, false, none, some, List, arith, done, inl, inr, ℤ, ◌+ℤ◌, ◌-ℤ◌,
  if◌then◌else◌, subst,
}
use kalshi_alpha.Prelude.Text.{Text}
use kalshi_alpha.Ingest.Subscription.{
  SubscriptionState, SeqOutcome, in_order, first, gap, regression, invalid_duration, invalidate,
  record_outcome, observe_seq, close_window, accept_snapshot, registered,
}
use kalshi_alpha.Ingest.Subscription.Streams.{observe_seq_inv}

-- A window of invalidity is under way exactly while the subscription is invalid.
abbrev pub IsClocked : SubscriptionState → Type 0
IsClocked s =
    ((s.valid ≡ true) × (s.invalid_since ≡ none))
    ⊎ ((s.valid ≡ false) × (since : ℤ) × (s.invalid_since ≡ some since))

pub registered-IsClocked :
    (sid : ℕ) (channel : Text) (markets : List Text) (now : ℤ)
    → IsClocked (registered sid channel markets now)
unfolding registered
registered-IsClocked sid channel markets now = inr (refl, now, refl)

record_outcome-IsClocked :
    (s : SubscriptionState) (seq : ℕ) (now : ℤ) (o : SeqOutcome)
    → IsClocked s
    → IsClocked (record_outcome s seq now o)
unfolding record_outcome invalidate
record_outcome-IsClocked s seq now (gap expected got skipped) (inl (v, n)) =
    inr (ground arith, now, ground arith)
record_outcome-IsClocked s seq now (gap expected got skipped) (inr (v, since, n)) =
    inr (ground arith, since, ground arith)
record_outcome-IsClocked s seq now (regression last got) k = k
record_outcome-IsClocked s seq now first k = k
record_outcome-IsClocked s seq now in_order k = k

-- Where a window of invalidity is under way exactly while the subscription is invalid, that stays so
-- over a snapshot, and the snapshot stops the clock: whatever is read later is what had passed when it came.
pub accept_snapshot_clock :
    (s : SubscriptionState) (seq : ℕ) (now later : ℤ)
    → IsClocked s
    → IsClocked (accept_snapshot s seq now)
      × (invalid_duration (accept_snapshot s seq now) later ≡ invalid_duration s now)
unfolding accept_snapshot close_window invalid_duration
accept_snapshot_clock s seq now later (inl (v, n)) =
    (inl (ground arith, ground arith), ground arith)
accept_snapshot_clock s seq now later (inr (v, since, n)) =
    (inl (ground arith, ground arith), ground arith)

module _ (s : SubscriptionState) (seq : ℕ) (now : ℤ) where
  outcome_clock :
      (o : SeqOutcome) (later : ℤ)
      → IsClocked s
      → invalid_duration (record_outcome s seq now o) later ≡ (
          if s.valid
          then if (record_outcome s seq now o).valid
            then invalid_duration s now
            else invalid_duration s now +ℤ (later -ℤ now)
          else invalid_duration s later)
  unfolding record_outcome invalidate invalid_duration
  outcome_clock (gap expected got skipped) later (inl (v, n)) = ground arith
  outcome_clock (gap expected got skipped) later (inr (v, since, n)) = ground arith
  outcome_clock (regression last got) later (inl (v, n)) = ground arith
  outcome_clock (regression last got) later (inr (v, since, n)) = ground arith
  outcome_clock first later (inl (v, n)) = ground arith
  outcome_clock first later (inr (v, since, n)) = ground arith
  outcome_clock in_order later (inl (v, n)) = ground arith
  outcome_clock in_order later (inr (v, since, n)) = ground arith

-- Where a window of invalidity is under way exactly while the subscription is invalid, that stays so
-- over a sequence number that does not panic; and
-- one that invalidates a subscription starts the clock at that moment; one that comes
-- while the subscription is invalid neither stops nor restarts it, and one that leaves it valid adds
-- nothing.
pub observe_seq_clock :
    (s : SubscriptionState) (seq : ℕ) (now : ℤ) (s' : SubscriptionState) (o : SeqOutcome)
    (later : ℤ)
    → IsClocked s
    → observe_seq s seq now ≡ done (s', o)
    → IsClocked s'
      × (invalid_duration s' later ≡ (
          if s.valid
          then if s'.valid then invalid_duration s now else invalid_duration s now +ℤ (later -ℤ now)
          else invalid_duration s later))
observe_seq_clock s seq now s' o later k h =
    let (e, r) = observe_seq_inv s seq now s' o h in
    subst
      (λ x.
        IsClocked x
        × (invalid_duration x later ≡ (
            if s.valid
            then if x.valid
              then invalid_duration s now
              else invalid_duration s now +ℤ (later -ℤ now)
            else invalid_duration s later)))
      r (record_outcome-IsClocked s seq now o k, outcome_clock s seq now o later k)
