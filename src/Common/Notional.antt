-- ===== src/Common/Notional.antt =====
-- crates/common/src/notional.rs: the value of a quantity at a price, at scale 1e-8. The product is
-- an `i128` and is tested on the way back to `i64`.
pub mod Product
pub mod Rounding
use kalshi_alpha.Prelude.{
  ℕ, ◌*◌, ◌+◌, Bool, Option, none, some, if◌then◌else◌, leb, ℤ, pos, negsuc, magnitude, is_negative,
  ◌+ℤ◌, ◌-ℤ◌, ◌*ℤ◌, checked_i64, checked_i128_mul, saturate_i64, div_trunc, rem_trunc,
}
use kalshi_alpha.Prelude.Text.{Text}
use kalshi_alpha.Common.Parse.{format_scaled}
use kalshi_alpha.Common.Px.{Px, px_scale_digits}
use kalshi_alpha.Common.Qty.{Qty, qty_scale_digits}

abbrev pub notional_scale_digits : ℕ
notional_scale_digits = px_scale_digits + qty_scale_digits

abbrev pub notional_scale : ℕ
notional_scale = 100_000_000

pub record Notional : Type 0 where
  pub units : ℤ

abbrev pub from_units : ℤ → Notional
from_units u = record { units = u }

abbrev pub map_notional : Option ℤ → Option Notional
map_notional none = none
map_notional (some u) = some (from_units u)

-- `i64::try_from(product?).ok()`
abbrev pub narrow : Option ℤ → Option ℤ
narrow none = none
narrow (some product) = checked_i64 product

unfoldable pub from_px_qty : Px → Qty → Option Notional
from_px_qty price quantity = map_notional (narrow (checked_i128_mul price.micros quantity.fp_units))

unfoldable pub checked_add : Notional → Notional → Option Notional
unfolding ◌+ℤ◌
checked_add a b = map_notional (checked_i64 (a.units +ℤ b.units))

unfoldable pub checked_sub : Notional → Notional → Option Notional
unfolding ◌-ℤ◌
checked_sub a b = map_notional (checked_i64 (a.units -ℤ b.units))

abbrev divisor : ℕ
divisor = 100

-- Half away from zero.
rounded : ℤ → ℤ
unfolding ◌+ℤ◌
rounded value =
    let quotient = div_trunc value divisor in
    let remainder = rem_trunc value divisor in
    if leb divisor (magnitude remainder * 2)
    then quotient +ℤ (if is_negative value then negsuc 0 else pos 1)
    else quotient

unfoldable pub to_micro_dollars : Notional → ℤ
unfolding rounded
to_micro_dollars n = saturate_i64 (rounded n.units)

unfoldable pub to_dollar_string : Notional → Text
to_dollar_string n = format_scaled n.units notional_scale_digits
