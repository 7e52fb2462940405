-- ===== src/Common/Notional/Product.antt =====
-- The product of a price and a quantity is exact, and fails only where it is no `i64`.
use native.Mathlib.Nat.{mul-le-mul}
use kalshi_alpha.Prelude.{
  ℕ, suc, ◌*◌, ◌^◌, ◌≤◌, ◌≡◌, true, arith, ℤ, pos, negsuc, InI64, fits_i128, ◌*ℤ◌, checked_i64,
}
use kalshi_alpha.Common.Px.{Px}
use kalshi_alpha.Common.Qty.{Qty}
use kalshi_alpha.Common.Notional.{map_notional, from_px_qty}

product_bound : (a b : ℕ) → a ≤ 2 ^ 63 → b ≤ 2 ^ 63 → a * b ≤ 2 ^ 126
product_bound a b h k = omega (arith, mul-le-mul h k)

-- The `i128` intermediate never overflows.
product-fits_i128 : (a b : ℤ) → InI64 a → InI64 b → fits_i128 (a *ℤ b) ≡ true
unfolding ◌*ℤ◌
product-fits_i128 (pos a) (pos b) h k = ground (arith, product_bound a b)
product-fits_i128 (pos a) (negsuc b) h k = ground (arith, product_bound a (suc b))
product-fits_i128 (negsuc a) (pos b) h k = ground (arith, product_bound (suc a) b)
product-fits_i128 (negsuc a) (negsuc b) h k = ground (arith, product_bound (suc a) (suc b))

-- The notional of an `i64` price and quantity is their product if that is an `i64`, and nothing
-- otherwise: the wider intermediate step refuses no product that fits.
pub from_px_qty_exact :
    (p : Px) (q : Qty)
    → InI64 p.micros
    → InI64 q.fp_units
    → from_px_qty p q ≡ map_notional (checked_i64 (p.micros *ℤ q.fp_units))
unfolding from_px_qty
from_px_qty_exact p q h k = rw (product-fits_i128 p.micros q.fp_units h k)
