-- ===== src/Common/Notional/Rounding.antt =====
-- The scale reduction rounds to the nearest unit, halves away from zero.
use kalshi_alpha.Prelude.{
  ℕ, zero, suc, ◌+◌, ◌-◌, ◌*◌, ◌/◌, ◌%◌, ◌^◌, ◌≤◌, ◌<◌, ◌≡◌, Bool, true, false, if◌then◌else◌, leb,
  arith, ℤ, pos, negsuc, magnitude, is_negative, signed, InI64, ◌+ℤ◌, refl, sym, ap, ◌∙◌, fits_i64,
  magnitude-signed,
}
use kalshi_alpha.Common.Notional.{Notional, rounded, to_micro_dollars}

-- The rounded magnitude.
abbrev pub half_up : ℕ → ℕ
half_up n = (n + 50) / 100

signed-suc : (q : ℕ) → signed true q +ℤ negsuc 0 ≡ signed true (suc q)
unfolding ◌+ℤ◌
signed-suc zero = refl
signed-suc (suc q) = ground arith

magnitude_step :
    (q r : ℕ) → r < 100 → half_up (100 * q + r) ≡ (if leb 100 (r * 2) then suc q else q)
magnitude_step q r h = ground arith

rounded_negative :
    (q r : ℕ)
    → (if leb 100 (magnitude (signed true r) * 2) then signed true q +ℤ negsuc 0 else signed true q)
      ≡ signed true (if leb 100 (r * 2) then suc q else q)
rounded_negative q r = ground (arith, magnitude-signed true r, signed-suc q)

rounded_lem : (v : ℤ) → rounded v ≡ signed (is_negative v) (half_up (magnitude v))
unfolding rounded
rounded_lem (pos n) = ground arith
rounded_lem (negsuc n) =
    rounded_negative (suc n / 100) (suc n % 100)
    ∙ ap (signed true) (
        sym (magnitude_step (suc n / 100) (suc n % 100) (omega arith))
        ∙ ap half_up {x = 100 * (suc n / 100) + suc n % 100} {y = suc n} (omega arith))

in_range : (s : Bool) (n m : ℕ) → n ≤ m → m < 2 ^ 63 → fits_i64 (signed s n) ≡ true
in_range true zero m h k = refl
in_range true (suc n) m h k = ground arith
in_range false n m h k = ground arith

rounded-fits_i64 :
    (v : ℤ) → InI64 v → fits_i64 (signed (is_negative v) (half_up (magnitude v))) ≡ true
rounded-fits_i64 (pos n) h = in_range false (half_up n) (2 ^ 63 - 1) (omega arith) (omega arith)
rounded-fits_i64 (negsuc n) h =
    in_range true (half_up (suc n)) (2 ^ 63 - 1) (omega arith) (omega arith)

-- Reducing the scale divides the magnitude by 100, rounds it to the nearest unit with halves up, and
-- keeps the sign: rounding is symmetric about zero and nothing saturates.
pub to_micro_dollars_nearest :
    (n : Notional)
    → InI64 n.units
    → to_micro_dollars n ≡ signed (is_negative n.units) (half_up (magnitude n.units))
unfolding to_micro_dollars
to_micro_dollars_nearest n h = rw (rounded_lem n.units, rounded-fits_i64 n.units h)
