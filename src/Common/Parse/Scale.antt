-- ===== src/Common/Parse/Scale.antt =====
-- The value that the parser assembles is the exact one: arithmetic of the two powers of ten.
use native.Mathlib.Decide.{dec_le}
use native.Mathlib.Nat.{mul-le-mul_right}
use kalshi_alpha.Prelude.{
  ℕ, ◌+◌, ◌-◌, ◌*◌, ◌^◌, ◌≤◌, ◌<◌, ◌≡◌, ap, subst, ◌∙◌, ◌++◌, arith, length, drop, All,
}
use kalshi_alpha.Prelude.Text.{Text}
use kalshi_alpha.Common.Parse.{frac_loop}
use kalshi_alpha.Common.Parse.Digits.{
  IsDigit, value, value-append, value_shift, value-lt, pow_pos, pow-split, frac_loop_lem, All-drop,
  length-drop,
}

-- `amount` scaled units are exactly the number that the digits before and behind the point spell.
abbrev pub IsExact : ℕ → ℕ → Text → Text → Type 0
IsExact scale amount ip fp = amount * 10 ^ length fp ≡ value 0 (ip ++ fp) * 10 ^ scale

exact_short : (w b vf p f a : ℕ) → a ≡ b * p → vf * p ≡ f → (w * a + f) * b ≡ (w * b + vf) * a
exact_short w b vf p f a e h = rw (e, ← h) (grind arith)

exact_long : (w a vf q f b : ℕ) → b ≡ a * q → vf ≡ f * q → (w * a + f) * b ≡ (w * b + vf) * a
exact_long w a vf q f b e h = rw (e, h) (grind arith)

cancel : (m n k : ℕ) → 0 < k → m * k ≡ n * k → m ≡ n
cancel m n k h e = grind arith

not_above : (m w q e : ℕ) → e < q → m * q ≡ w * q + e → ¬ (w < m)
not_above m w q e h k lt = absurd (grind (arith, mul-le-mul_right q lt))

not_below : (m w q e : ℕ) → e < q → m * q ≡ w * q + e → ¬ (m < w)
not_below m w q e h k lt = absurd (grind (arith, mul-le-mul_right q lt))

divide : (m w q e : ℕ) → e < q → m * q ≡ w * q + e → (m ≡ w) × (e ≡ 0)
divide m w q e h k = (same, grind (arith, ap (λ (t : ℕ). t * q) same))
  where
    same : m ≡ w
    same = omega (arith, not_above m w q e h k, not_below m w q e h k)

factor_short :
    (m w b vf a p : ℕ) → a ≡ b * p → m * b ≡ (w * b + vf) * a → m * b ≡ (w * a + vf * p) * b
factor_short m w b vf a p e h = h ∙ rw e (grind arith)

factor_long :
    (m w a vf q f e b : ℕ)
    → b ≡ a * q
    → vf ≡ f * q + e
    → m * b ≡ (w * b + vf) * a
    → (m * q) * a ≡ ((w * a + f) * q + e) * a
factor_long m w a vf q f e b i j h = outer ∙ rw (← i) (h ∙ rw (i, j) (grind arith))
  where
    outer : m * q * a ≡ m * (a * q)
    outer = grind arith

module _ (scale : ℕ) (ip fp : Text) where
  -- The amount that the two loops compute.
  abbrev pub loop_amount : ℕ
  loop_amount = value 0 ip * 10 ^ scale + frac_loop scale fp 0

  spelled : value 0 (ip ++ fp) ≡ value 0 ip * 10 ^ length fp + value 0 fp
  spelled = value-append ip fp 0 ∙ value_shift fp (value 0 ip)

  -- The fraction has at most as many digits as the scale, or at least as many.
  short :
      length fp ≤ scale
      → (10 ^ scale ≡ 10 ^ length fp * 10 ^ (scale - length fp))
        × (value 0 fp * 10 ^ (scale - length fp) ≡ frac_loop scale fp 0 + value 0 (drop scale fp))
  short h =
      let e : length fp - scale ≡ 0 = omega arith in
      let lem = frac_loop_lem scale fp 0 in
      (pow-split (length fp) scale h, omega (arith, rw e at lem))

  long :
      scale ≤ length fp
      → (10 ^ length fp ≡ 10 ^ scale * 10 ^ (length fp - scale))
        × (value 0 fp ≡ frac_loop scale fp 0 * 10 ^ (length fp - scale) + value 0 (drop scale fp))
  long h =
      let e : scale - length fp ≡ 0 = omega arith in
      let lem = frac_loop_lem scale fp 0 in
      (pow-split scale (length fp) h, omega (arith, rw e at lem))

  -- Where the digits behind the scale are zeros, the amount is exact.
  pub loop_amount-IsExact : value 0 (drop scale fp) ≡ 0 → IsExact scale loop_amount ip fp
  loop_amount-IsExact zeros = rw spelled (elim (dec_le (length fp) scale) [
    | yes h ↦
        exact_short (value 0 ip) _ (value 0 fp) _ (frac_loop scale fp 0) _ (short h).0
          (omega (arith, (short h).1))
    | no h ↦
        let (i, j) = long (omega arith) in
        exact_long (value 0 ip) _ (value 0 fp) _ (frac_loop scale fp 0) _ i (omega arith)
  ])

  tail_bound : All IsDigit fp → value 0 (drop scale fp) < 10 ^ (length fp - scale)
  tail_bound digits =
      subst (λ k. value 0 (drop scale fp) < 10 ^ k) (length-drop scale fp)
        (value-lt (drop scale fp) (All-drop scale fp digits))

  no_tail : All IsDigit fp → length fp ≤ scale → value 0 (drop scale fp) ≡ 0
  no_tail digits h =
      let e : length fp - scale ≡ 0 = omega arith in
      let bound = tail_bound digits in omega (arith, rw e at bound)

  -- An exact amount is the one that the loops compute, and the digits behind the scale are zeros.
  pub IsExact-loop_amount :
      (amount : ℕ)
      → All IsDigit fp
      → IsExact scale amount ip fp
      → (amount ≡ loop_amount) × (value 0 (drop scale fp) ≡ 0)
  IsExact-loop_amount amount digits h =
      let h' : amount * 10 ^ length fp ≡ (value 0 ip * 10 ^ length fp + value 0 fp) * 10 ^ scale =
        rw (← spelled) h in
      elim (dec_le (length fp) scale) [
        | yes le ↦
            let (i, j) = short le in
            let same =
              cancel amount _ (10 ^ length fp) (pow_pos (length fp))
                (factor_short amount (value 0 ip) _ (value 0 fp) _ _ i h') in
            (omega (arith, same, j, no_tail digits le), no_tail digits le)
        | no gt ↦
            let (i, j) = long (omega arith) in
            divide amount _ _ _ (tail_bound digits) (
              cancel (amount * 10 ^ (length fp - scale)) _ (10 ^ scale) (pow_pos scale) (
                factor_long amount (value 0 ip) _ (value 0 fp) _ (frac_loop scale fp 0) _ _ i j h'))
      ]
