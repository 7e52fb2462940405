-- ===== src/Common/Parse/RoundTrip.antt =====
-- `format_scaled` prints what `parse_scaled` reads back.
use native.Mathlib.Nat.{div-add-mod, mod-lt}
use kalshi_alpha.Prelude.{
  ℕ, zero, suc, ◌+◌, ◌-◌, ◌*◌, ◌/◌, ◌%◌, ◌^◌, ◌≤◌, ◌<◌, ◌≡◌, ◌≢◌, refl, sym, ap, ap₂, ◌∙◌, inl, inr,
  [], ◌∷◌, ◌++◌, arith, ltb, Bool-cases, length, length-append, length-replicate, replicate, All,
  All-append, ok, ℤ, pos, negsuc, InI64, magnitude, is_negative, signed-magnitude,
}
use kalshi_alpha.Prelude.Text.{Text}
use kalshi_alpha.Common.Parse.{decimal, padded, format_scaled, parse_scaled, max_scale_digits}
use kalshi_alpha.Common.Parse.Digits.{IsDigit, value, value-append, value_shift, pow_step, pow_pos}
use kalshi_alpha.Common.Parse.Scale.{IsExact}
use kalshi_alpha.Common.Parse.Grammar.{fraction, spell}
use kalshi_alpha.Common.Parse.Accept.{parse_scaled_complete}

decimal-IsDigit : (fuel n : ℕ) → n ≤ fuel → All IsDigit (decimal fuel n)
unfolding decimal
decimal-IsDigit zero n h = omega arith
decimal-IsDigit (suc fuel) n h = elim (Bool-cases (ltb n 10)) [
  | inl e ↦ rw (e, decimal) (ground arith)
  | inr e ↦
      rw (e, decimal)
        (All-append IsDigit (decimal fuel (n / 10)) _ (decimal-IsDigit fuel (n / 10) (ground arith))
          (omega arith))
]

value-decimal : (fuel n : ℕ) → n ≤ fuel → value 0 (decimal fuel n) ≡ n
unfolding decimal
value-decimal zero n h = omega arith
value-decimal (suc fuel) n h = elim (Bool-cases (ltb n 10)) [
  | inl e ↦ rw (e, decimal) (ground arith)
  | inr e ↦
      rw (e, decimal)
        (ground (
          arith,
          value-append (decimal fuel (n / 10)) ((b'0' + n % 10) ∷ []) 0,
          value-decimal fuel (n / 10),
        ))
]

decimal-ne-nil : (fuel n : ℕ) → decimal fuel n ≢ []
unfolding decimal
decimal-ne-nil zero n e = cc
decimal-ne-nil (suc fuel) n e = elim (Bool-cases (ltb n 10)) [
  | inl t ↦ absurd (ground arith)
  | inr t ↦
      absurd
        (ground (arith, ap length e, length-append (decimal fuel (n / 10)) ((b'0' + n % 10) ∷ [])))
]

length-decimal : (fuel n k : ℕ) → n < 10 ^ suc k → length (decimal fuel n) ≤ suc k
unfolding decimal
length-decimal zero n k h = omega arith
length-decimal (suc fuel) n zero h = ground arith
length-decimal (suc fuel) n (suc k) h = ground (
  arith,
  length-append (decimal fuel (n / 10)) ((b'0' + n % 10) ∷ []),
  length-decimal fuel (n / 10) k,
  pow_step (suc k),
)

zeros-IsDigit : (n : ℕ) → All IsDigit (replicate n b'0')
zeros-IsDigit zero = tt
zeros-IsDigit (suc n) = (omega arith, zeros-IsDigit n)

value-zeros : (n : ℕ) → value 0 (replicate n b'0') ≡ 0
value-zeros zero = refl
value-zeros (suc n) = value-zeros n

padded-IsDigit : (width n : ℕ) → All IsDigit (padded width n)
unfolding padded
padded-IsDigit width n =
    All-append IsDigit (replicate _ b'0') (decimal n n) (zeros-IsDigit _)
      (decimal-IsDigit n n (omega arith))

value-padded : (width n : ℕ) → value 0 (padded width n) ≡ n
unfolding padded
value-padded width n =
    value-append (replicate (width - length (decimal n n)) b'0') (decimal n n) 0
    ∙ ap (λ (k : ℕ). value k (decimal n n)) (value-zeros (width - length (decimal n n)))
    ∙ value-decimal n n (omega arith)

length-padded : (k n : ℕ) → n < 10 ^ suc k → length (padded (suc k) n) ≡ suc k
unfolding padded
length-padded k n h = omega (
  arith,
  length-append (replicate (suc k - length (decimal n n)) b'0') (decimal n n),
  length-replicate {A = ℕ} (suc k - length (decimal n n)) b'0',
  length-decimal n n k h,
)

padded-ne-nil : (width n : ℕ) → padded width n ≢ []
unfolding padded
padded-ne-nil width n e = decimal-ne-nil n n (
    ground (
      arith,
      ap length e,
      length-append (replicate (width - length (decimal n n)) b'0') (decimal n n),
    ))

fraction-padded : (f : Text) → f ≢ [] → fraction f ≡ b'.' ∷ f
fraction-padded [] h = absurd (h refl)
fraction-padded (c ∷ f) h = refl

printed :
    (q r width : ℕ) → value 0 (decimal q q ++ padded width r) ≡ q * 10 ^ length (padded width r) + r
printed q r width =
    value-append (decimal q q) (padded width r) 0
    ∙ value_shift (padded width r) (value 0 (decimal q q))
    ∙ ap₂ (λ (a b : ℕ). a * 10 ^ length (padded width r) + b) (value-decimal q q (omega arith))
        (value-padded width r)

split_exact : (m q r d : ℕ) → d * q + r ≡ m → m * d ≡ (q * d + r) * d
split_exact m q r d e = rw (← e) (grind arith)

unit_exact : (m q r p : ℕ) → q ≡ m → r ≡ 0 → m * p ≡ (q * p + r) * 1
unit_exact m q r p e f = rw (e, f) (omega arith)

format-IsExact :
    (m scale : ℕ)
    → IsExact scale m (decimal (m / 10 ^ scale) (m / 10 ^ scale)) (padded scale (m % 10 ^ scale))
format-IsExact m zero =
    unit_exact m (m / 1) (m % 1) (10 ^ length (padded 0 (m % 1))) (omega arith) (omega arith)
    ∙ ap (λ (k : ℕ). k * 1) (sym (printed (m / 1) (m % 1) 0))
format-IsExact m (suc k) =
    let d = 10 ^ suc k in
    let len = length-padded k (m % d) (mod-lt m (pow_pos (suc k))) in
    ap (λ (l : ℕ). m * 10 ^ l) len
    ∙ split_exact m (m / d) (m % d) d (div-add-mod m d)
    ∙ ap (λ (l : ℕ). (m / d * 10 ^ l + m % d) * d) (sym len)
    ∙ ap (λ (n : ℕ). n * d) (sym (printed (m / d) (m % d) (suc k)))

format-spell :
    (v : ℤ) (scale : ℕ)
    → format_scaled v scale
      ≡ spell
          (is_negative v)
          (decimal (magnitude v / 10 ^ scale) (magnitude v / 10 ^ scale))
          (padded scale (magnitude v % 10 ^ scale))
unfolding format_scaled
format-spell (pos n) scale = rw (fraction-padded _ (padded-ne-nil scale (n % 10 ^ scale)))
format-spell (negsuc n) scale = rw (fraction-padded _ (padded-ne-nil scale (suc n % 10 ^ scale)))

-- Every `i64`, the least one included, is read back from its print at each supported scale.
pub parse_scaled-format_scaled :
    (v : ℤ) (scale : ℕ)
    → InI64 v
    → scale ≤ max_scale_digits
    → parse_scaled (format_scaled v scale) scale ≡ ok v
parse_scaled-format_scaled v scale fits h =
    parse_scaled_complete (format_scaled v scale) scale v h (record {
      negative = is_negative v;
      int_digits = decimal (magnitude v / 10 ^ scale) (magnitude v / 10 ^ scale);
      frac_digits = padded scale (magnitude v % 10 ^ scale);
      amount = magnitude v;
      spelled = format-spell v scale;
      int_some = decimal-ne-nil _ _;
      int_all = decimal-IsDigit _ _ (omega arith);
      frac_all = padded-IsDigit scale _;
      exact = format-IsExact (magnitude v) scale;
      result = sym (signed-magnitude v);
      fits = fits;
    })
