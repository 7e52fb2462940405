-- ===== src/Common/Ranges/Validity.antt =====
-- A grid that was validated answers every price, and a grid that was not may panic.
use native.Mathlib.Nat.{div-add-mod, mul_comm, mul-mod_left}
use native.Mathlib.Decide.{dec_le}
use kalshi_alpha.Prelude.{
  Bool, true, false, ℕ, suc, ◌+◌, ◌*◌, ◌%◌, ◌<◌, ◌≡◌, ◌↔◌, ◌⊎◌, inl, inr, refl, sym, ap, ◌∙◌, ◌/◌,
  pos_part, neg_part, magnitude, int_laws, ◌==◌, parts_disjoint, ==_iff, Bool-cases, true, false,
  none, some, Option, List, [], ◌∷◌, arith, All, ok, Result-cases, done, panics, ℤ, pos, negsuc,
  ◌≤ℤ◌, ◌<ℤ◌, ◌-ℤ◌, ◌+ℤ◌,
}
use kalshi_alpha.Common.Px.{Px}
use kalshi_alpha.Common.Ranges.{
  PriceRange, PriceRanges, contains, check_band, check_bands, new, is_on_grid, any_on_grid,
  is_valid,
}

-- A band with a positive step whose start is not behind its end.
abbrev pub IsBand : PriceRange → Type 0
IsBand b = (pos 0 <ℤ b.step.micros) × (b.start.micros ≤ℤ b.end.micros)

-- Each band starts no lower than the one before it.
abbrev pub Ascending : Option Px → List PriceRange → Type 0
Ascending previous [] = Unit
Ascending none (b ∷ rest) = Ascending (some b.start) rest
Ascending (some p) (b ∷ rest) = (p.micros ≤ℤ b.start.micros) × Ascending (some b.start) rest

check_sound :
    (i : ℕ) (previous : Option Px) (bs : List PriceRange)
    → check_bands i previous bs ≡ ok tt
    → All IsBand bs × Ascending previous bs
unfolding check_bands check_band
check_sound i previous [] h = (tt, tt)
check_sound i none (b ∷ bs) h = ground (arith, check_sound (suc i) (some b.start) bs)
check_sound i (some p) (b ∷ bs) h = ground (arith, check_sound (suc i) (some b.start) bs)

check_complete :
    (i : ℕ) (previous : Option Px) (bs : List PriceRange)
    → All IsBand bs
    → Ascending previous bs
    → check_bands i previous bs ≡ ok tt
unfolding check_bands check_band
check_complete i previous [] h k = refl
check_complete i none (b ∷ bs) h k =
    ground (arith, check_complete (suc i) (some b.start) bs h.1 k, h.0)
check_complete i (some p) (b ∷ bs) h k =
    ground (arith, check_complete (suc i) (some b.start) bs h.1 k.1, h.0, k.0)

-- A grid is built exactly from bands with positive steps, that are not inverted and that ascend by
-- their starts; it holds those bands.
pub new_iff :
    (bs : List PriceRange) (g : PriceRanges)
    → (new bs ≡ ok g) ↔ ((g.bands ≡ bs) × All IsBand bs × Ascending none bs)
unfolding new
new_iff bs g = (to, from)
  where
    to : new bs ≡ ok g → (g.bands ≡ bs) × All IsBand bs × Ascending none bs
    to h = elim (Result-cases (check_bands 0 none bs)) [
      | inl (u, e) ↦ let (p, q) = check_sound 0 none bs e in (ground arith, p, q)
      | inr (x, e) ↦ absurd (ground arith)
    ]

    from : (g.bands ≡ bs) × All IsBand bs × Ascending none bs → new bs ≡ ok g
    from (e, p, q) = rw (check_complete 0 none bs p q) (ap ok (λ i. record { bands = sym e i }))

-- The price is in the band, a whole number of steps above its start.
abbrev pub OnGrid : PriceRange → Px → Type 0
OnGrid b p =
    (b.start.micros ≤ℤ p.micros)
    × (p.micros ≤ℤ b.end.micros)
    × ((k : ℕ) × (p.micros ≡ b.start.micros +ℤ pos (k * magnitude b.step.micros)))

abbrev pub Any {ℓ} : {A : Type ℓ} → (A → Type 0) → List A → Type 0
Any P [] = ⊥
Any P (x ∷ xs) = P x ⊎ Any P xs

-- A difference of two ordered values is not negative.
diff_pos : (a b : ℤ) → b ≤ℤ a → a -ℤ b ≡ pos (pos_part (a -ℤ b))
diff_pos a b h = nonneg (a -ℤ b) (omega (int_laws, parts_disjoint (a -ℤ b)))
  where
    nonneg : (v : ℤ) → neg_part v ≡ 0 → v ≡ pos (pos_part v)
    nonneg (pos n) e = refl
    nonneg (negsuc n) e = absurd (omega arith)

whole_steps : (n s : ℕ) → n % s ≡ 0 → n ≡ n / s * s
whole_steps n s e = grind (arith, div-add-mod n s, mul_comm (n / s) s)

multiple_mod : (k s : ℕ) → 0 < s → k * s % s ≡ 0
multiple_mod k s h = mul-mod_left k s

step_pos : (v : ℤ) → pos 0 <ℤ v → 0 < magnitude v
step_pos (pos n) h = omega arith
step_pos (negsuc n) h = absurd (omega arith)

module _ (b : PriceRange) (p : Px) (band : IsBand b) where
  -- The remainder of the test, as one of natural numbers.
  abbrev offset : ℕ
  offset = pos_part (p.micros -ℤ b.start.micros)

  on_grid_test :
      b.start.micros ≤ℤ p.micros
      → p.micros ≤ℤ b.end.micros
      → is_on_grid b p ≡ done ((offset % magnitude b.step.micros) == 0)
  unfolding is_on_grid
  on_grid_test h k =
      let pos_step = step_pos b.step.micros band.0 in
      rw (diff_pos p.micros b.start.micros h) (ground (arith, h, k))

  OnGrid-of_mod :
      b.start.micros ≤ℤ p.micros
      → p.micros ≤ℤ b.end.micros
      → offset % magnitude b.step.micros ≡ 0
      → OnGrid b p
  OnGrid-of_mod h k e = (
    h,
    k,
    (
      offset / magnitude b.step.micros,
      back (diff_pos p.micros b.start.micros h)
          ∙ ap (λ (n : ℕ). b.start.micros +ℤ pos n)
              (whole_steps offset (magnitude b.step.micros) e),
    ),
  )
    where
      back : p.micros -ℤ b.start.micros ≡ pos offset → p.micros ≡ b.start.micros +ℤ pos offset
      back e = omega (int_laws, ap pos_part e, ap neg_part e)

  mod_of_OnGrid : OnGrid b p → offset % magnitude b.step.micros ≡ 0
  mod_of_OnGrid (h, k, (n, e)) =
      ap (λ (m : ℕ). m % magnitude b.step.micros) same
      ∙ multiple_mod n (magnitude b.step.micros) (step_pos b.step.micros band.0)
    where
      same : offset ≡ n * magnitude b.step.micros
      same =
          omega
            (int_laws, ap pos_part e, ap neg_part e, parts_disjoint (p.micros -ℤ b.start.micros))

  -- In a band that was checked the test answers, and it says exactly whether the price is on the grid.
  is_on_grid_lem :
      ((is_on_grid b p ≡ done true) × OnGrid b p) ⊎ ((is_on_grid b p ≡ done false) × (¬ OnGrid b p))
  is_on_grid_lem =
      elim (dec_le (pos_part b.start.micros + neg_part p.micros)
        (pos_part p.micros + neg_part b.start.micros)) [
          | yes h ↦
              elim (dec_le (pos_part p.micros + neg_part b.end.micros)
                (pos_part b.end.micros + neg_part p.micros)) [
                  | yes k ↦ elim (Bool-cases ((offset % magnitude b.step.micros) == 0)) [
                    | inl e ↦
                        inl (on_grid_test h k ∙ ap done e, OnGrid-of_mod h k ((==_iff _ _).0 e))
                    | inr e ↦ inr (
                      on_grid_test h k ∙ ap done e,
                      λ g. cc (sym e ∙ (==_iff _ 0).1 (mod_of_OnGrid g)),
                    )
                  ]
                  | no k ↦ inr (outside (λ h' k'. k k'), λ g. k g.1)
                ]
          | no h ↦ inr (outside (λ h' k'. h h'), λ g. h g.0)
        ]
    where
      outside :
          (b.start.micros ≤ℤ p.micros → p.micros ≤ℤ b.end.micros → ⊥) → is_on_grid b p ≡ done false
      outside n = unfold is_on_grid in ground arith

any_on_grid_lem :
    (bs : List PriceRange) (p : Px)
    → All IsBand bs
    → ((any_on_grid bs p ≡ done true) × Any (λ b. OnGrid b p) bs)
      ⊎ ((any_on_grid bs p ≡ done false) × (¬ Any (λ b. OnGrid b p) bs))
unfolding any_on_grid
any_on_grid_lem [] p h = inr (refl, λ e. e)
any_on_grid_lem (b ∷ bs) p (hb, hs) = elim (is_on_grid_lem b p hb) [
  | inl (e, g) ↦ inl (rw e, inl g)
  | inr (e, g) ↦ elim (any_on_grid_lem bs p hs) [
    | inl (e', g') ↦ inl (rw (e, e'), inr g')
    | inr (e', g') ↦ inr (rw (e, e'), neither g g')
  ]
]
  where
    neither : ¬ OnGrid b p → ¬ Any (λ c. OnGrid c p) bs → ¬ Any (λ c. OnGrid c p) (b ∷ bs)
    neither g g' (inl x) = g x
    neither g g' (inr x) = g' x

-- A grid that was built by `new` answers every price without a panic: yes exactly where some band
-- holds the price on its grid, and no otherwise.
pub is_valid_iff :
    (bs : List PriceRange) (g : PriceRanges) (p : Px)
    → new bs ≡ ok g
    → ((is_valid g p ≡ done true) × Any (λ b. OnGrid b p) g.bands)
      ⊎ ((is_valid g p ≡ done false) × (¬ Any (λ b. OnGrid b p) g.bands))
unfolding is_valid
is_valid_iff bs g p h =
    let (e, bands, sorted) = (new_iff bs g).0 h in any_on_grid_lem g.bands p (rw e bands)

-- A grid whose first band has step 0, which deserialising admits since it does not call `new`, panics
-- on every price in that band.
pub is_valid_step_zero :
    (b : PriceRange) (rest : List PriceRange) (p : Px)
    → b.step.micros ≡ pos 0
    → contains b p ≡ true
    → is_valid (record { bands = b ∷ rest }) p ≡ panics
unfolding is_valid
is_valid_step_zero b rest p e h = rw h (ground arith)

-- A grid of checked bands answers every price.
pub is_valid_total :
    (g : PriceRanges) (p : Px) → All IsBand g.bands → (r : Bool) × (is_valid g p ≡ done r)
unfolding is_valid
is_valid_total g p h = elim (any_on_grid_lem g.bands p h) [
  | inl (e, _) ↦ (true, e)
  | inr (e, _) ↦ (false, e)
]
