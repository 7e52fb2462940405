-- ===== src/Common/Parse/Examples.antt =====
-- Runs of the parser and the printer on inputs that the documents name.
use kalshi_alpha.Prelude.{◌≡◌, refl, ok, err, pos, negsuc}
use kalshi_alpha.Prelude.Text.{codes}
use kalshi_alpha.Common.Parse.{
  parse_scaled, format_scaled, excess_precision, missing_integer_digits,
}

parse_price : parse_scaled (codes "0.5500") 6 ≡ ok (pos 550000)
unfolding parse_scaled
parse_price = refl

parse_negative : parse_scaled (codes "-54.00") 2 ≡ ok (negsuc 5399)
unfolding parse_scaled
parse_negative = refl

parse_trailing_zeros : parse_scaled (codes "1.0000000") 6 ≡ ok (pos 1000000)
unfolding parse_scaled
parse_trailing_zeros = refl

parse_excess : parse_scaled (codes "1.005") 2 ≡ err (excess_precision (codes "1.005") 2 (codes "5"))
unfolding parse_scaled
parse_excess = refl

parse_bare_point : parse_scaled (codes ".5") 2 ≡ err (missing_integer_digits (codes ".5"))
unfolding parse_scaled
parse_bare_point = refl

format_min : format_scaled (negsuc 9223372036854775807) 6 ≡ codes "-9223372036854.775808"
unfolding format_scaled
format_min = refl

format_cent : format_scaled (pos 5) 2 ≡ codes "0.05"
unfolding format_scaled
format_cent = refl
