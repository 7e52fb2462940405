-- ===== src/Common/Qty.antt =====
-- crates/common/src/qty.rs: contract counts in hundredths of a contract.
use kalshi_alpha.Prelude.{
  ℕ, Bool, Option, none, some, ◌≡◌, Result, ok, ◌>>=◌, ℤ, pos, is_negative, eqb_ℤ, ◌+ℤ◌, ◌-ℤ◌,
  checked_i64, InI64, arith,
}
use kalshi_alpha.Prelude.Text.{Text}
use kalshi_alpha.Common.Parse.{ParseFixedError, parse_scaled, format_scaled}
use kalshi_alpha.Common.Parse.RoundTrip.{parse_scaled-format_scaled}

abbrev pub qty_scale_digits : ℕ
qty_scale_digits = 2

abbrev pub qty_scale : ℕ
qty_scale = 100

pub record Qty : Type 0 where
  pub fp_units : ℤ

abbrev pub from_fp_units : ℤ → Qty
from_fp_units u = record { fp_units = u }

abbrev pub map_qty : Option ℤ → Option Qty
map_qty none = none
map_qty (some u) = some (from_fp_units u)

unfoldable pub parse_fp : Text → Result ParseFixedError Qty
parse_fp s = parse_scaled s qty_scale_digits >>= λ u. ok (from_fp_units u)

unfoldable pub checked_add : Qty → Qty → Option Qty
unfolding ◌+ℤ◌
checked_add a b = map_qty (checked_i64 (a.fp_units +ℤ b.fp_units))

unfoldable pub checked_sub : Qty → Qty → Option Qty
unfolding ◌-ℤ◌
checked_sub a b = map_qty (checked_i64 (a.fp_units -ℤ b.fp_units))

abbrev pub is_zero : Qty → Bool
is_zero q = eqb_ℤ q.fp_units (pos 0)

abbrev pub qty_is_negative : Qty → Bool
qty_is_negative q = is_negative q.fp_units

unfoldable pub to_fp_string : Qty → Text
to_fp_string q = format_scaled q.fp_units qty_scale_digits

-- A quantity is read back from its print.
pub parse_fp-to_fp_string : (q : Qty) → InI64 q.fp_units → parse_fp (to_fp_string q) ≡ ok q
unfolding parse_fp to_fp_string
parse_fp-to_fp_string q h = ground (arith, parse_scaled-format_scaled q.fp_units 2 h (omega arith))

-- A difference that is reported adds back to the minuend.
pub checked_add-checked_sub :
    (a b c : Qty) → InI64 a.fp_units → checked_sub a b ≡ some c → checked_add c b ≡ some a
unfolding checked_add checked_sub
checked_add-checked_sub a b c h e = ground arith
