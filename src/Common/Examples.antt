-- ===== src/Common/Examples.antt =====
-- The theorems on values, tickers and grids at concrete inputs.
use kalshi_alpha.Prelude.{
  ℕ, ◌≡◌, ◌↔◌, refl, true, some, List, [], ◌∷◌, arith, ok, done, pos, negsuc,
}
use kalshi_alpha.Prelude.Text.{codes}
use kalshi_alpha.Common.Parse.{parse_scaled, format_scaled}
use kalshi_alpha.Common.Parse.Grammar.{Denotes}
use kalshi_alpha.Common.Parse.Accept.{parse_scaled_iff}
use kalshi_alpha.Common.Parse.RoundTrip.{parse_scaled-format_scaled}
use kalshi_alpha.Common.Px.{from_micros}
use kalshi_alpha.Common.Qty.{Qty, from_fp_units}
use kalshi_alpha.Common.Qty
use kalshi_alpha.Common.Ticker.{Ticker, parse, as_partition_component}
use kalshi_alpha.Common.Ticker.Safety.{IsSafeComponent, parse-IsSafeComponent, parse_idempotent}
use kalshi_alpha.Common.Ranges.{
  PriceRange, PriceRanges, GridSnap, new, is_valid, snap_to_grid, snap_price,
}
use kalshi_alpha.Common.Ranges.Snap.{snap_to_grid-is_valid}

parse_scaled_iff_example :
    (parse_scaled (codes "-54.00") 2 ≡ ok (negsuc 5399)) ↔ Denotes (codes "-54.00") 2 (negsuc 5399)
parse_scaled_iff_example = parse_scaled_iff (codes "-54.00") 2 (negsuc 5399) (omega arith)

parse_scaled-format_scaled_example : parse_scaled (format_scaled (negsuc 42) 6) 6 ≡ ok (negsuc 42)
parse_scaled-format_scaled_example =
    parse_scaled-format_scaled (negsuc 42) 6 (omega arith) (omega arith)

difference :
    Qty.checked_sub (from_fp_units (pos 100)) (from_fp_units (pos 250))
    ≡ some (from_fp_units (negsuc 149))
unfolding Qty.checked_sub
difference = refl

abbrev btc : Ticker
btc = record { text = codes "KXBTC-26" }

parsed : parse (codes "kxbtc-26") ≡ ok btc
unfolding parse
parsed = refl

parse-IsSafeComponent_example : IsSafeComponent (as_partition_component btc)
parse-IsSafeComponent_example = parse-IsSafeComponent (codes "kxbtc-26") btc parsed

parse_idempotent_example : parse btc.text ≡ ok btc
parse_idempotent_example = parse_idempotent (codes "kxbtc-26") btc parsed

abbrev band_at : ℕ → ℕ → ℕ → PriceRange
band_at start end step = record {
  start = from_micros (pos start);
  end = from_micros (pos end);
  step = from_micros (pos step);
}

-- A grid that is finer at its lower end.
abbrev bands : List PriceRange
bands = band_at 0 100_000 1_000 ∷ band_at 100_000 1_000_000 10_000 ∷ []

abbrev grid : PriceRanges
grid = record { bands = bands }

new_grid : new bands ≡ ok grid
unfolding new
new_grid = refl

snap_to_grid-is_valid_example :
    (s : GridSnap) × (snap_to_grid grid (from_micros (pos 104_321)) ≡ some s)
    × (is_valid grid (snap_price s) ≡ done true)
snap_to_grid-is_valid_example =
    snap_to_grid-is_valid (band_at 0 100_000 1_000) (band_at 100_000 1_000_000 10_000 ∷ []) grid
      (from_micros (pos 104_321)) new_grid (omega arith, omega arith)
