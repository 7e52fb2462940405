-- ===== src/Common/Px/Arith.antt =====
-- Reciprocal prices and midpoints are exact.
use kalshi_alpha.Prelude.{
  ◌≤◌, ◌≡◌, refl, ap, arith, some, ok, ℤ, pos, negsuc, pos_part, neg_part, ◌+ℤ◌, ◌-ℤ◌, ◌≤ℤ◌, ◌<ℤ◌,
  InI64, saturate_i64, div_euclid, ◌∙◌, ◌-◌, ◌^◌,
}
use kalshi_alpha.Common.Px.{
  Px, px_scale, one_dollar, complement, checked_complement, checked_add, midpoint, parse_dollars,
  to_dollar_string,
}
use kalshi_alpha.Common.Parse.RoundTrip.{parse_scaled-format_scaled}

-- The price is an `i64`, as every price of the program is.
abbrev pub IsPx : Px → Type 0
IsPx p = InI64 p.micros

-- The price is that of a leg of a binary market.
abbrev pub InDollar : Px → Type 0
InDollar p = (pos 0 ≤ℤ p.micros) × (p.micros ≤ℤ pos px_scale)

micros_eq : (p q : Px) → p.micros ≡ q.micros → p ≡ q
micros_eq p q e = λ i. record { micros = e i }

-- Within a dollar nothing saturates.
complement_micros :
    (p : Px) → InDollar p → (complement p).micros ≡ pos (px_scale - pos_part p.micros)
unfolding complement
complement_micros p h = micros_of p.micros h.0 h.1
  where
    micros_of :
        (m : ℤ)
        → pos 0 ≤ℤ m
        → m ≤ℤ pos px_scale
        → saturate_i64 (pos px_scale -ℤ m) ≡ pos (px_scale - pos_part m)
    micros_of (pos n) h k = ground arith
    micros_of (negsuc n) h k = absurd (omega arith)

nonneg : (m : ℤ) → pos 0 ≤ℤ m → m ≡ pos (pos_part m)
nonneg (pos n) h = refl
nonneg (negsuc n) h = absurd (omega arith)

complement-InDollar : (p : Px) → InDollar p → InDollar (complement p)
complement-InDollar p h = rw (complement_micros p h) (omega arith)

complement_sum : (p : Px) → InDollar p → checked_add p (complement p) ≡ some one_dollar
unfolding checked_add
complement_sum p h = rw (complement_micros p h, nonneg p.micros h.0) (ground (arith, h.1))

complement_twice : (p : Px) → InDollar p → (complement (complement p)).micros ≡ p.micros
complement_twice p h =
    complement_micros (complement p) (complement-InDollar p h)
    ∙ rw (complement_micros p h) (ground (arith, h.1, nonneg p.micros h.0))

-- From 0 to 1 dollar the complement lies in the same range, the two prices sum to exactly one dollar,
-- and the complement of the complement is the price.
pub complement_exact :
    (p : Px)
    → InDollar p
    → InDollar (complement p)
      × (checked_add p (complement p) ≡ some one_dollar)
      × (complement (complement p) ≡ p)
complement_exact p h =
    (complement-InDollar p h, complement_sum p h, micros_eq _ _ (complement_twice p h))

-- The complement saturates exactly where the checked complement reports an overflow.
pub complement_checked : (p q : Px) → IsPx p → checked_complement p ≡ some q → complement p ≡ q
unfolding complement checked_complement
complement_checked p q h e = ground arith

-- The complement turns the order of prices round.
pub complement-lt :
    (p q : Px)
    → InDollar p
    → InDollar q
    → p.micros <ℤ q.micros
    → (complement q).micros <ℤ (complement p).micros
complement-lt p q hp hq h =
    rw (complement_micros p hp, complement_micros q hq)
      (omega (arith, ap neg_part (nonneg p.micros hp.0), ap neg_part (nonneg q.micros hq.0)))

-- The range of a sum of two `i64` values, as bounds on its two parts.
+ℤ_range :
    (a b : ℤ) → InI64 a → InI64 b → (pos_part (a +ℤ b) ≤ 2 ^ 64 - 2) × (neg_part (a +ℤ b) ≤ 2 ^ 64)
unfolding ◌+ℤ◌
+ℤ_range (pos a) (pos b) h k = ground arith
+ℤ_range (pos a) (negsuc b) h k = ground arith
+ℤ_range (negsuc a) (pos b) h k = ground arith
+ℤ_range (negsuc a) (negsuc b) h k = ground arith

half :
    (s : ℤ)
    → (pos_part s ≤ 2 ^ 64 - 2) × (neg_part s ≤ 2 ^ 64)
    → let m = saturate_i64 (div_euclid s 2) in (m +ℤ m ≤ℤ s) × (s <ℤ m +ℤ m +ℤ pos 2) × InI64 m
unfolding ◌+ℤ◌
half (pos n) h = ground arith
half (negsuc n) h = ground arith

-- The midpoint of two `i64` prices is their half sum rounded down: nothing saturates.
pub midpoint_floor :
    (p q : Px)
    → IsPx p
    → IsPx q
    → let m = (midpoint p q).micros in
      (m +ℤ m ≤ℤ p.micros +ℤ q.micros) × (p.micros +ℤ q.micros <ℤ m +ℤ m +ℤ pos 2) × InI64 m
unfolding midpoint
midpoint_floor p q hp hq = half (p.micros +ℤ q.micros) (+ℤ_range p.micros q.micros hp hq)

-- A price is read back from its print, as a serialised price is.
pub parse_dollars-to_dollar_string : (p : Px) → IsPx p → parse_dollars (to_dollar_string p) ≡ ok p
unfolding parse_dollars to_dollar_string
parse_dollars-to_dollar_string p h =
    ground (arith, parse_scaled-format_scaled p.micros 6 h (omega arith))
