-- ===== src/Ingest/Registry/Recovery.antt =====
-- How a subscription is brought back, and the counts of it.
use kalshi_alpha.Prelude.{
  ℕ, zero, suc, ◌+◌, ◌≡◌, ◌↔◌, ◌⊎◌, refl, true, none, some, List, [], ◌∷◌, arith, if◌then◌else◌,
}
use kalshi_alpha.Ingest.Registry.{
  RecoveryMethod, get_snapshot, resubscribe, reconnect, ladder, escalate, ErrorBody,
  recovery_for_error, eq_method, Counts, increment, count_of, SubscriptionRegistry, record_recovery,
}

-- A recovery that fails on every rung, from the given rung on, and gives up after as many attempts
-- as the number says.
unfoldable pub climb : ℕ → RecoveryMethod → List RecoveryMethod
unfolding escalate
climb zero m = []
climb (suc n) m = m ∷ elim (escalate m) [ none ↦ [] | some m' ↦ climb n m' ]

-- However many attempts are allowed beyond three, a recovery from the first rung tries each rung of
-- the ladder once, cheapest first, and stops.
pub climb-ladder : (n : ℕ) → climb (suc (suc (suc n))) get_snapshot ≡ ladder
unfolding climb escalate
climb-ladder n = refl

-- An error of the server calls for a recovery exactly when its code is 10, 17 or 25, and then for a
-- new subscription: never for a snapshot, which a terminated subscription cannot send.
pub recovery_for_error_iff :
    (e : ErrorBody) (m : RecoveryMethod)
    → (recovery_for_error e ≡ some m)
      ↔ ((m ≡ resubscribe) × ((e.code ≡ 10) ⊎ (e.code ≡ 17) ⊎ (e.code ≡ 25)))
unfolding recovery_for_error
recovery_for_error_iff e m =
    (λ h. (ground arith, ground arith), λ h. let (x, y) = h in ground arith)

eq_method_sound : (m m' : RecoveryMethod) → eq_method m m' ≡ true → m ≡ m'
eq_method_sound get_snapshot get_snapshot h = refl
eq_method_sound get_snapshot resubscribe h = absurd (cc)
eq_method_sound get_snapshot reconnect h = absurd (cc)
eq_method_sound resubscribe get_snapshot h = absurd (cc)
eq_method_sound resubscribe resubscribe h = refl
eq_method_sound resubscribe reconnect h = absurd (cc)
eq_method_sound reconnect get_snapshot h = absurd (cc)
eq_method_sound reconnect resubscribe h = absurd (cc)
eq_method_sound reconnect reconnect h = refl

count-increment :
    (m m' : RecoveryMethod) (cs : Counts)
    → count_of m' (increment m cs) ≡ (if eq_method m m' then count_of m' cs + 1 else count_of m' cs)
unfolding count_of increment
count-increment m m' [] = refl
count-increment m m' ((k, n) ∷ cs) = ground (arith, eq_method_sound k m, count-increment m m' cs)

-- A list of recoveries, recorded one after the other.
unfoldable pub record_all : SubscriptionRegistry → List RecoveryMethod → SubscriptionRegistry
unfolding record_recovery
record_all r [] = r
record_all r (m ∷ ms) = record_all (record_recovery r m) ms

abbrev pub occurrences : RecoveryMethod → List RecoveryMethod → ℕ
occurrences m [] = 0
occurrences m (m' ∷ ms) = if eq_method m' m then suc (occurrences m ms) else occurrences m ms

-- The count of each method grows by the number of times it was recorded.
pub record_all_counts :
    (r : SubscriptionRegistry) (ms : List RecoveryMethod) (m : RecoveryMethod)
    → count_of m (record_all r ms).recoveries ≡ count_of m r.recoveries + occurrences m ms
unfolding record_all record_recovery
record_all_counts r [] m = omega arith
record_all_counts r (m' ∷ ms) m =
    ground (arith, record_all_counts (record_recovery r m') ms m, count-increment m' m r.recoveries)
