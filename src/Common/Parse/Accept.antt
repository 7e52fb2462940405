-- ===== src/Common/Parse/Accept.antt =====
-- Completeness of `parse_scaled`: it refuses no text that spells a value exactly.
use native.Mathlib.Nat.{mul-le-mul_left}
use kalshi_alpha.Prelude.{
  ℕ, zero, suc, ◌+◌, ◌*◌, ◌^◌, ◌≤◌, ◌<◌, ◌≡◌, ◌≢◌, ◌↔◌, refl, sym, ap, ◌∙◌, Bool, true, false, not,
  [], ◌∷◌, ◌++◌, arith, ◌==◌, drop, All, ok, ℤ, signed, InI64, subst, InI64-fits_i64, append-nil,
  i64_bound,
}
use kalshi_alpha.Prelude.Text.{Text, any_of}
use kalshi_alpha.Common.Parse.{
  max_scale_digits, frac_loop, assemble, parse_body, parse_scaled, check_integer, check_fraction,
  strip_minus, check_points,
}
use kalshi_alpha.Common.Parse.Digits.{
  IsDigit, value, int_loop_complete, value_zeros, reject_complete, pow_pos, All-drop,
}
use kalshi_alpha.Common.Parse.Scale.{loop_amount, IsExact-loop_amount}
use kalshi_alpha.Common.Parse.Grammar.{
  Denotes, spell, fraction, split_digits, split_fraction, strip_minus_digit,
}
use kalshi_alpha.Common.Parse.Exact.{parse_scaled_sound}

-- An `i64` is below the bounds of the intermediate steps.
amount_bound : (negative : Bool) (n : ℕ) → InI64 (signed negative n) → n ≤ i64_bound
amount_bound true zero h = omega arith
amount_bound true (suc n) h = omega arith
amount_bound false n h = omega arith

whole_bound : (w p f m : ℕ) → 0 < p → w * p + f ≤ m → w ≤ m
whole_bound w p f m h k = grind (arith, mul-le-mul_left w h)

assemble_complete :
    (input : Text) (scale : ℕ) (negative : Bool) (ip fp : Text)
    → InI64 (signed negative (loop_amount scale ip fp))
    → any_of (λ b. not (b == b'0')) (drop scale fp) ≡ false
    → assemble input scale negative ip fp ≡ ok (signed negative (loop_amount scale ip fp))
unfolding assemble
assemble_complete input scale negative ip fp fits zeros =
    let bound = amount_bound negative (loop_amount scale ip fp) fits in
    let whole =
      whole_bound (value 0 ip) (10 ^ scale) (frac_loop scale fp 0) i64_bound (pow_pos scale)
        bound in
    rw (int_loop_complete ip 0 (omega arith)) (ground (arith, InI64-fits_i64 _ fits))

module _ (input : Text) (scale : ℕ) (negative : Bool) where
  parse_body_complete :
      (ip fp : Text)
      → ip ≢ []
      → All IsDigit ip
      → All IsDigit fp
      → parse_body input scale negative (ip ++ fraction fp) ≡ assemble input scale negative ip fp
  unfolding parse_body check_points check_integer check_fraction
  parse_body_complete [] fp n hi hf = absurd (n refl)
  parse_body_complete (c ∷ ip) [] n hi hf =
      rw (append-nil, split_digits (c ∷ ip) hi) (rw (reject_complete (c ∷ ip) input hi))
  parse_body_complete (c ∷ ip) (d ∷ fp) n hi hf =
      rw (split_fraction (c ∷ ip) (d ∷ fp) hi hf)
        (rw (reject_complete (c ∷ ip) input hi, reject_complete (d ∷ fp) input hf))

strip_spell :
    (negative : Bool) (ip fp : Text)
    → ip ≢ []
    → All IsDigit ip
    → strip_minus (spell negative ip fp) ≡ (negative, ip ++ fraction fp)
unfolding strip_minus
strip_spell true ip fp n h = refl
strip_spell false [] fp n h = absurd (n refl)
strip_spell false (c ∷ ip) fp n h = strip_minus_digit c (ip ++ fraction fp) h.0

spell_accepted :
    (scale : ℕ) (negative : Bool) (ip fp : Text)
    → scale ≤ max_scale_digits
    → ip ≢ []
    → All IsDigit ip
    → All IsDigit fp
    → parse_scaled (spell negative ip fp) scale
      ≡ assemble (spell negative ip fp) scale negative ip fp
unfolding parse_scaled
spell_accepted scale true ip fp h n hi hf =
    ground (arith, parse_body_complete (spell true ip fp) scale true ip fp n hi hf)
spell_accepted scale false [] fp h n hi hf = absurd (n refl)
spell_accepted scale false (c ∷ ip) fp h n hi hf = ground (
  arith,
  strip_minus_digit c (ip ++ fraction fp) hi.0,
  parse_body_complete (spell false (c ∷ ip) fp) scale false (c ∷ ip) fp n hi hf,
)

pub parse_scaled_complete :
    (s : Text) (scale : ℕ) (v : ℤ)
    → scale ≤ max_scale_digits
    → Denotes s scale v
    → parse_scaled s scale ≡ ok v
parse_scaled_complete s scale v h d =
    let (same, zeros) =
      IsExact-loop_amount scale d.int_digits d.frac_digits d.amount d.frac_all d.exact in
    let result : v ≡ signed d.negative (loop_amount scale d.int_digits d.frac_digits) =
      d.result ∙ ap (signed d.negative) same in
    rw
      (
        d.spelled,
        spell_accepted scale d.negative d.int_digits d.frac_digits h d.int_some d.int_all
            d.frac_all,
      )
      (assemble_complete _ scale d.negative d.int_digits d.frac_digits (subst InI64 result d.fits)
          (value_zeros (drop scale d.frac_digits) (All-drop scale d.frac_digits d.frac_all) zeros)
        ∙ ap ok (sym result))

-- At a supported scale, the parser returns a value exactly when the text is an optional minus, one or
-- more digits and an optional point with one or more digits, its number is the value with no
-- rounding, and the value is an `i64`.
pub parse_scaled_iff :
    (s : Text) (scale : ℕ) (v : ℤ)
    → scale ≤ max_scale_digits
    → (parse_scaled s scale ≡ ok v) ↔ Denotes s scale v
parse_scaled_iff s scale v h = (parse_scaled_sound s scale v, parse_scaled_complete s scale v h)
