-- ===== src/Common/Ranges.antt =====
-- crates/common/src/ranges.rs: the tick grid of a market. Differences and products are `i128` in the
-- source and wide enough for every `i64` price, so they are integers here. A division by a step of 0
-- panics.
pub mod Validity
pub mod Points
pub mod Snap
use kalshi_alpha.Prelude.{
  ℕ, suc, ◌+◌, Bool, true, false, ◌&&◌, ◌||◌, not, Option, none, some, List, [], ◌∷◌, ltb, leb,
  ◌==◌, if◌then◌else◌, Result, ok, err, ◌>>=◌, ◌>>◌, Exec, done, panics, and_then, ℤ, pos,
  magnitude, ◌+ℤ◌, ◌-ℤ◌, ◌*ℤ◌, ltb_ℤ, leb_ℤ, eqb_ℤ, rem_trunc, div_trunc, checked_i64,
}
use kalshi_alpha.Common.Px.{Px, from_micros, lt_px, le_px, eq_px, map_px}

pub record PriceRange : Type 0 where
  pub start : Px
  pub end : Px
  pub step : Px

pub data PriceRangeError : Type 0 where
  non_positive_step : (index : ℕ) (step : Px) → PriceRangeError
  inverted : (index : ℕ) (start end : Px) → PriceRangeError
  unsorted : (index : ℕ) (start previous : Px) → PriceRangeError

abbrev pub contains : PriceRange → Px → Bool
contains band price = le_px band.start price && le_px price band.end

-- `%` on `i128`.
abbrev pub checked_rem : ℤ → ℤ → Exec ℤ
checked_rem a b = if magnitude b == 0 then panics else done (rem_trunc a (magnitude b))

unfoldable pub is_on_grid : PriceRange → Px → Exec Bool
unfolding ◌-ℤ◌
is_on_grid band price =
    if not (contains band price)
    then done false
    else and_then (checked_rem (price.micros -ℤ band.start.micros) band.step.micros)
        λ r. done (eqb_ℤ r (pos 0))

-- `Ord::clamp`
abbrev pub clamp : ℤ → ℤ → ℤ → ℤ
clamp v low high = if ltb_ℤ v low then low else if ltb_ℤ high v then high else v

abbrev pub distance : ℤ → ℤ → ℕ
distance a b = magnitude (a -ℤ b)

-- The two grid points around the target, and the choice between them; ties go up.
unfoldable pub nearer : (target lower upper end : ℤ) → ℤ
nearer target lower upper end =
    if leb_ℤ upper end && leb (distance upper target) (distance target lower) then upper else lower

unfoldable pub snap : PriceRange → Px → Option Px
unfolding ◌-ℤ◌ ◌+ℤ◌ ◌*ℤ◌ nearer
snap band price =
    if leb_ℤ band.step.micros (pos 0) || lt_px band.end band.start
    then none
    else let first = band.start.micros in
      let target = clamp price.micros first band.end.micros in
      let steps = div_trunc (target -ℤ first) (magnitude band.step.micros) in
      let lower = first +ℤ steps *ℤ band.step.micros in
      let upper = lower +ℤ band.step.micros in
      map_px (checked_i64 (nearer target lower upper band.end.micros))

pub data GridSnap : Type 0 where
  exact snapped clamped : Px → GridSnap

unfoldable pub snap_price : GridSnap → Px
snap_price (exact p) = p
snap_price (snapped p) = p
snap_price (clamped p) = p

unfoldable pub is_clamped : GridSnap → Bool
is_clamped (clamped p) = true
is_clamped s = false

unfoldable pub was_modified : GridSnap → Bool
was_modified (exact p) = false
was_modified s = true

pub record PriceRanges : Type 0 where
  pub bands : List PriceRange

-- The first complaint about a band.
pub check_band : ℕ → Option Px → PriceRange → Result PriceRangeError Unit
check_band index previous band =
    if leb_ℤ band.step.micros (pos 0)
    then err (non_positive_step index band.step)
    else if lt_px band.end band.start
    then err (inverted index band.start band.end)
    else elim previous [
      | none ↦ ok tt
      | some p ↦ if lt_px band.start p then err (unsorted index band.start p) else ok tt
    ]

pub check_bands : ℕ → Option Px → List PriceRange → Result PriceRangeError Unit
check_bands index previous [] = ok tt
check_bands index previous (band ∷ rest) =
    check_band index previous band >> check_bands (suc index) (some band.start) rest

unfoldable pub new : List PriceRange → Result PriceRangeError PriceRanges
unfolding check_bands check_band
new bands = check_bands 0 none bands >>= λ _. ok (record { bands = bands })

-- `iter().any(…)`, which stops at the first band that holds the price.
pub any_on_grid : List PriceRange → Px → Exec Bool
any_on_grid [] price = done false
any_on_grid (band ∷ rest) price =
    let later = any_on_grid rest price in
    and_then (is_on_grid band price) λ here. if here then done true else later

unfoldable pub is_valid : PriceRanges → Px → Exec Bool
unfolding any_on_grid is_on_grid
is_valid grid price = any_on_grid grid.bands price

pub any_contains : List PriceRange → Px → Bool
any_contains [] price = false
any_contains (band ∷ rest) price = contains band price || any_contains rest price

-- The better of the best price so far and a candidate.
pub pick : Px → Px → Px → Px
unfolding ◌-ℤ◌
pick price current candidate =
    let d_candidate = distance candidate.micros price.micros in
    let d_current = distance current.micros price.micros in
    if ltb d_candidate d_current || d_candidate == d_current && lt_px current candidate
    then candidate
    else current

abbrev pub pick_best : Px → Option Px → Option Px → Option Px
pick_best price best none = best
pick_best price none (some candidate) = some candidate
pick_best price (some current) (some candidate) = some (pick price current candidate)

pub best_snap : Px → Option Px → List PriceRange → Option Px
best_snap price best [] = best
best_snap price best (band ∷ rest) = best_snap price (pick_best price best (snap band price)) rest

abbrev pub classify : Px → Bool → Px → GridSnap
classify price within_a_band p =
    if eq_px p price then exact p else if within_a_band then snapped p else clamped p

unfoldable pub snap_to_grid : PriceRanges → Px → Option GridSnap
unfolding best_snap any_contains pick snap
snap_to_grid grid price = elim (best_snap price none grid.bands) [
  | none ↦ none
  | some p ↦ some (classify price (any_contains grid.bands price) p)
]
