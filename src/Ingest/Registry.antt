-- ===== src/Ingest/Registry.antt =====
-- crates/ingest/src/ws.rs: the registry of live subscriptions, and how a subscription is recovered
-- (with `ErrorBody` of crates/ingest/src/wire.rs). A `HashMap` is the list of its entries, in an order
-- that nothing here depends on: theorems look entries up by key.
pub mod Entries
pub mod Recovery
use kalshi_alpha.Prelude.{
  ℕ, ◌+◌, Bool, true, false, not, ◌||◌, Option, none, some, List, [], ◌∷◌, map, ◌==◌, if◌then◌else◌,
  ℤ, length,
}
use kalshi_alpha.Prelude.Text.{Text, codes}
use kalshi_alpha.Ingest.Subscription.{SubscriptionState, registered}

pub data RecoveryMethod : Type 0 where
  get_snapshot resubscribe reconnect : RecoveryMethod

-- `RecoveryMethod::LADDER`
abbrev pub ladder : List RecoveryMethod
ladder = get_snapshot ∷ resubscribe ∷ reconnect ∷ []

abbrev pub as_str : RecoveryMethod → Text
as_str get_snapshot = codes "get_snapshot"
as_str resubscribe = codes "resubscribe"
as_str reconnect = codes "reconnect"

unfoldable pub escalate : RecoveryMethod → Option RecoveryMethod
escalate get_snapshot = some resubscribe
escalate resubscribe = some reconnect
escalate reconnect = none

pub record ErrorBody : Type 0 where
  pub code : ℕ
  pub msg : Text
  pub market_ticker : Option Text

abbrev pub is_terminal : ErrorBody → Bool
is_terminal e = e.code == 10 || e.code == 17 || e.code == 25

abbrev pub is_buffer_overflow : ErrorBody → Bool
is_buffer_overflow e = e.code == 25

unfoldable pub recovery_for_error : ErrorBody → Option RecoveryMethod
recovery_for_error e =
    if is_buffer_overflow e
    then some resubscribe
    else if is_terminal e
    then some resubscribe
    else none

-- The same rung.
abbrev pub eq_method : RecoveryMethod → RecoveryMethod → Bool
eq_method get_snapshot get_snapshot = true
eq_method resubscribe resubscribe = true
eq_method reconnect reconnect = true
eq_method m m' = false

abbrev pub BySid : Type 0
BySid = List (ℕ × SubscriptionState)

abbrev pub Counts : Type 0
Counts = List (RecoveryMethod × ℕ)

-- `HashMap` by sid: `insert`, `get`, `remove`, and a change through `get_mut`.
unfoldable pub insert_sid : ℕ → SubscriptionState → BySid → BySid
insert_sid sid s [] = (sid, s) ∷ []
insert_sid sid s ((k, v) ∷ m) = if k == sid then (k, s) ∷ m else (k, v) ∷ insert_sid sid s m

unfoldable pub get_sid : ℕ → BySid → Option SubscriptionState
get_sid sid [] = none
get_sid sid ((k, v) ∷ m) = if k == sid then some v else get_sid sid m

unfoldable pub remove_sid : ℕ → BySid → BySid
remove_sid sid [] = []
remove_sid sid ((k, v) ∷ m) = let rest = remove_sid sid m in if k == sid then m else (k, v) ∷ rest

unfoldable pub update_sid : ℕ → (SubscriptionState → SubscriptionState) → BySid → BySid
update_sid sid f [] = []
update_sid sid f ((k, v) ∷ m) = if k == sid then (k, f v) ∷ m else (k, v) ∷ update_sid sid f m

-- `*entry(method).or_insert(0) += 1`
unfoldable pub increment : RecoveryMethod → Counts → Counts
increment m [] = (m, 1) ∷ []
increment m ((k, n) ∷ rest) = if eq_method k m then (k, n + 1) ∷ rest else (k, n) ∷ increment m rest

-- The count that is stored, and 0 where there is none.
unfoldable pub count_of : RecoveryMethod → Counts → ℕ
count_of m [] = 0
count_of m ((k, n) ∷ rest) = if eq_method k m then n else count_of m rest

pub record SubscriptionRegistry : Type 0 where
  pub by_sid : BySid
  pub recoveries : Counts

abbrev pub empty_registry : SubscriptionRegistry
empty_registry = record { by_sid = []; recoveries = [] }

unfoldable pub register : SubscriptionRegistry → ℕ → Text → List Text → ℤ → SubscriptionRegistry
register r sid channel markets now = record r {
  by_sid = insert_sid sid (registered sid channel markets now) r.by_sid;
}

unfoldable pub retire : SubscriptionRegistry → ℕ → SubscriptionRegistry × Option SubscriptionState
retire r sid = (record r { by_sid = remove_sid sid r.by_sid }, get_sid sid r.by_sid)

unfoldable pub retire_all : SubscriptionRegistry → SubscriptionRegistry
retire_all r = record r { by_sid = [] }

unfoldable pub get : SubscriptionRegistry → ℕ → Option SubscriptionState
get r sid = get_sid sid r.by_sid

-- A change of the state that `get_mut` lends.
unfoldable pub get_mut :
    SubscriptionRegistry → ℕ → (SubscriptionState → SubscriptionState) → SubscriptionRegistry
get_mut r sid f = record r { by_sid = update_sid sid f r.by_sid }

abbrev pub len : SubscriptionRegistry → ℕ
len r = length r.by_sid

abbrev pub sids : SubscriptionRegistry → List ℕ
sids r = map (λ e. e.0) r.by_sid

unfoldable pub invalid_of : BySid → List ℕ
invalid_of [] = []
invalid_of ((k, v) ∷ m) = if v.valid then invalid_of m else k ∷ invalid_of m

unfoldable pub invalid_sids : SubscriptionRegistry → List ℕ
invalid_sids r = invalid_of r.by_sid

unfoldable pub sum_gaps : BySid → ℕ
sum_gaps [] = 0
sum_gaps ((k, v) ∷ m) = v.gaps + sum_gaps m

unfoldable pub total_gaps : SubscriptionRegistry → ℕ
total_gaps r = sum_gaps r.by_sid

unfoldable pub record_recovery : SubscriptionRegistry → RecoveryMethod → SubscriptionRegistry
record_recovery r m = record r { recoveries = increment m r.recoveries }
