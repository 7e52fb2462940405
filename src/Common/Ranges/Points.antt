-- ===== src/Common/Ranges/Points.antt =====
-- The point that snapping chooses, as integers.
use kalshi_alpha.Prelude.{
  ℕ, suc, ◌+◌, ◌-◌, ◌*◌, ◌/◌, ◌≤◌, ◌≡◌, ◌⊎◌, inl, inr, refl, sym, ap, subst, ◌∙◌, arith, Bool-cases,
  ℤ, pos, negsuc, ◌+ℤ◌, ◌-ℤ◌, ◌*ℤ◌, ◌≤ℤ◌, ◌<ℤ◌, magnitude, div_trunc, leb_ℤ, leb, ◌&&◌,
}
use kalshi_alpha.Common.Ranges.{clamp, distance, nearer}

mul-pos : (a b : ℕ) → pos a *ℤ pos b ≡ pos (a * b)
unfolding ◌*ℤ◌
mul-pos a b = ground arith

difference : (a b : ℤ) → a ≤ℤ b → (n : ℕ) × (b -ℤ a ≡ pos n) × (b ≡ a +ℤ pos n)
unfolding ◌-ℤ◌ ◌+ℤ◌
difference (pos a) (pos b) h = (b - a, ground arith, ground arith)
difference (pos a) (negsuc b) h = absurd (ground arith)
difference (negsuc a) (pos b) h = (b + suc a, ground arith, ground arith)
difference (negsuc a) (negsuc b) h = (a - b, ground arith, ground arith)

positive : (d : ℤ) → pos 0 <ℤ d → (k : ℕ) × (d ≡ pos (suc k))
positive (pos n) h = (n - 1, ground arith)
positive (negsuc n) h = absurd (ground arith)

pub clamp_range :
    (v low high : ℤ) → low ≤ℤ high → (low ≤ℤ clamp v low high) × (clamp v low high ≤ℤ high)
clamp_range v low high h = ground arith

add_assoc : (a : ℤ) (m n : ℕ) → a +ℤ pos m +ℤ pos n ≡ a +ℤ pos (m + n)
unfolding ◌+ℤ◌
add_assoc a m n = ground arith

add-le : (a : ℤ) (m n : ℕ) → m ≤ n → a +ℤ pos m ≤ℤ a +ℤ pos n
unfolding ◌+ℤ◌
add-le a m n h = ground arith

add_zero-le : (a : ℤ) (m : ℕ) → a ≤ℤ a +ℤ pos m
unfolding ◌+ℤ◌
add_zero-le a m = ground arith

nearer_cases :
    (target lower upper end : ℤ)
    → (nearer target lower upper end ≡ lower)
      ⊎ ((nearer target lower upper end ≡ upper) × (upper ≤ℤ end))
unfolding nearer
nearer_cases target lower upper end =
    elim (Bool-cases (leb_ℤ upper end && leb (distance upper target) (distance target lower))) [
      | inl y ↦ rw (y, nearer) (inr (refl, ground arith))
      | inr n ↦ rw (n, nearer) (inl refl)
    ]

below_multiple : (n m : ℕ) → n / suc m * suc m ≤ n
below_multiple n m = omega arith

next_multiple : (k m : ℕ) → k * suc m + suc m ≡ (k + 1) * suc m
next_multiple k m = omega arith

-- The grid point at or below the target.
lower_point :
    (s t d : ℤ) (n m : ℕ)
    → t -ℤ s ≡ pos n
    → d ≡ pos (suc m)
    → s +ℤ div_trunc (t -ℤ s) (magnitude d) *ℤ d ≡ s +ℤ pos (n / suc m * suc m)
lower_point s t d n m en ed = rw (en) (rw (ed) (ap (λ x. s +ℤ x) (mul-pos (n / suc m) (suc m))))

-- A point at a whole number of steps from the start, and no higher than the end, is on the grid.
on_point :
    (s e d v : ℤ) (k m : ℕ)
    → d ≡ pos (suc m)
    → v ≡ s +ℤ pos (k * suc m)
    → v ≤ℤ e
    → (s ≤ℤ v) × (v ≤ℤ e) × ((k : ℕ) × (v ≡ s +ℤ pos (k * magnitude d)))
on_point s e d v k m ed ev le = (
  subst (λ x. s ≤ℤ x) (sym ev) (add_zero-le s _),
  le,
  (k, ev ∙ ap (λ x. s +ℤ pos (k * magnitude x)) (sym ed)),
)

le_trans : (a b c : ℤ) → a ≤ℤ b → b ≤ℤ c → a ≤ℤ c
le_trans a b c h k = omega (arith, h, k)

-- The chosen point is on the grid of the band.
pub chosen_point :
    (s e t d v : ℤ)
    → pos 0 <ℤ d
    → s ≤ℤ t
    → t ≤ℤ e
    → (let lower = s +ℤ div_trunc (t -ℤ s) (magnitude d) *ℤ d in v ≡ nearer t lower (lower +ℤ d) e)
    → (s ≤ℤ v) × (v ≤ℤ e) × ((k : ℕ) × (v ≡ s +ℤ pos (k * magnitude d)))
chosen_point s e t d v hd hs he hv =
    let (m, ed) = positive d hd in
    let (n, en, et) = difference s t hs in
    let lower = s +ℤ div_trunc (t -ℤ s) (magnitude d) *ℤ d in
    let low = lower_point s t d n m en ed in
    let steps = n / suc m in
    elim (nearer_cases t lower (lower +ℤ d) e) [
      | inl same ↦
          let spot = hv ∙ same ∙ low in
          let below = add-le s (steps * suc m) n (below_multiple n m) in
          on_point s e d v steps m ed spot (
            subst (λ x. x ≤ℤ e) (sym spot)
              (le_trans _ _ e (subst (λ x. s +ℤ pos (steps * suc m) ≤ℤ x) (sym et) below) he))
      | inr (same, fits) ↦
          on_point s e d v (steps + 1) m ed
            (hv
              ∙ same
              ∙ ap (λ x. x +ℤ d) low
              ∙ ap (λ x. s +ℤ pos (steps * suc m) +ℤ x) ed
              ∙ add_assoc s (steps * suc m) (suc m)
              ∙ ap (λ x. s +ℤ pos x) (next_multiple steps m))
            (subst (λ x. x ≤ℤ e) (sym (hv ∙ same)) fits)
    ]
