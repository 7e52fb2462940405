-- ===== src/Common/Px.antt =====
-- crates/common/src/px.rs: prices in micro-dollars. An `i64` operation is stated with the range test
-- that the source's checked or saturating form makes. Wire text goes through `Common.Parse`. The
-- `debug_assert!` of `complement` is off in the release build, which is the one modelled.
pub mod Arith
use kalshi_alpha.Prelude.{
  ℕ, ◌<◌, ◌≤◌, Bool, true, false, not, Option, none, some, if◌then◌else◌, ltb, leb, ◌==◌, Result,
  ok, err, ◌>>=◌, ℤ, pos, negsuc, pos_part, neg_part, ◌+◌, ◌+ℤ◌, ◌-ℤ◌, ltb_ℤ, leb_ℤ, eqb_ℤ, InI64,
  checked_i64, saturate_i64, div_euclid,
}
use kalshi_alpha.Prelude.Text.{Text}
use kalshi_alpha.Common.Parse.{ParseFixedError, parse_scaled, format_scaled}

abbrev pub px_scale_digits : ℕ
px_scale_digits = 6

abbrev pub px_scale : ℕ
px_scale = 1_000_000

pub record Px : Type 0 where
  pub micros : ℤ

abbrev pub from_micros : ℤ → Px
from_micros m = record { micros = m }

abbrev pub zero_px : Px
zero_px = from_micros (pos 0)

abbrev pub one_dollar : Px
one_dollar = from_micros (pos px_scale)

-- The derived orders and equality.
abbrev pub lt_px : Px → Px → Bool
lt_px a b = ltb_ℤ a.micros b.micros

abbrev pub le_px : Px → Px → Bool
le_px a b = leb_ℤ a.micros b.micros

abbrev pub eq_px : Px → Px → Bool
eq_px a b = eqb_ℤ a.micros b.micros

-- `parse_scaled(s, PX_SCALE_DIGITS).map(Px)`
unfoldable pub parse_dollars : Text → Result ParseFixedError Px
parse_dollars s = parse_scaled s px_scale_digits >>= λ m. ok (from_micros m)

unfoldable pub complement : Px → Px
unfolding ◌-ℤ◌
complement p = from_micros (saturate_i64 (pos px_scale -ℤ p.micros))

abbrev pub map_px : Option ℤ → Option Px
map_px none = none
map_px (some m) = some (from_micros m)

unfoldable pub checked_complement : Px → Option Px
unfolding ◌-ℤ◌
checked_complement p = map_px (checked_i64 (pos px_scale -ℤ p.micros))

unfoldable pub checked_add : Px → Px → Option Px
unfolding ◌+ℤ◌
checked_add p q = map_px (checked_i64 (p.micros +ℤ q.micros))

unfoldable pub checked_sub : Px → Px → Option Px
unfolding ◌-ℤ◌
checked_sub p q = map_px (checked_i64 (p.micros -ℤ q.micros))

unfoldable pub midpoint : Px → Px → Px
unfolding ◌+ℤ◌
midpoint p q = from_micros (saturate_i64 (div_euclid (p.micros +ℤ q.micros) 2))

unfoldable pub to_dollar_string : Px → Text
to_dollar_string p = format_scaled p.micros px_scale_digits
