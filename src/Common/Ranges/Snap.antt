-- ===== src/Common/Ranges/Snap.antt =====
-- Snapping moves a price to the grid.
use mathlib.Core.Option.{some-injective}
use kalshi_alpha.Prelude.{
  ◌≡◌, ◌⊎◌, inl, inr, refl, sym, ap, subst, ◌∙◌, Bool, true, false, Option, none, some, List, [],
  ◌∷◌, arith, All, Option-cases, ok, done, InI64, ℤ, pos, negsuc, ◌+ℤ◌, ◌-ℤ◌, ◌*ℤ◌, ◌≤ℤ◌, magnitude,
  div_trunc, leb_ℤ, ◌||◌, checked_i64, if◌then◌else◌,
}
use kalshi_alpha.Common.Px.{Px, from_micros, map_px, lt_px}
use kalshi_alpha.Common.Ranges.{
  PriceRange, PriceRanges, clamp, nearer, snap, best_snap, pick, pick_best, classify, GridSnap,
  snap_price, snap_to_grid, new, is_valid, any_contains,
}
use kalshi_alpha.Common.Ranges.Validity.{IsBand, OnGrid, Any, new_iff, is_valid_iff}
use kalshi_alpha.Common.Ranges.Points.{clamp_range, chosen_point}

snapped_micros : (v : ℤ) (q : Px) → map_px (checked_i64 v) ≡ some q → q.micros ≡ v
snapped_micros v q h = ground arith

not_refused :
    (b : PriceRange) → IsBand b → (leb_ℤ b.step.micros (pos 0) || lt_px b.end b.start) ≡ false
not_refused b (hd, hse) = ground arith

-- A band with a positive step that is not inverted snaps a price to one of its own grid points.
snap-OnGrid : (b : PriceRange) (p q : Px) → IsBand b → snap b p ≡ some q → OnGrid b q
unfolding snap
snap-OnGrid b p q (hd, hse) h =
    let (hs, he) = clamp_range p.micros b.start.micros b.end.micros hse in
    chosen_point b.start.micros b.end.micros (clamp p.micros b.start.micros b.end.micros)
      b.step.micros q.micros hd hs he (snapped_micros _ q (rw (not_refused b (hd, hse), snap) at h))

pick_cases :
    (p current candidate : Px)
    → (pick p current candidate ≡ candidate) ⊎ (pick p current candidate ≡ current)
unfolding pick
pick_cases p current candidate = either _
  where
    either :
        (t : Bool)
        → ((if t then candidate else current) ≡ candidate)
          ⊎ ((if t then candidate else current) ≡ current)
    either true = inl refl
    either false = inr refl

-- The best candidate is the one that was there before, or a point of one of the bands.
best_snap-OnGrid :
    (p : Px) (best : Option Px) (bs : List PriceRange) (q : Px)
    → All IsBand bs
    → best_snap p best bs ≡ some q
    → (best ≡ some q) ⊎ Any (λ b. OnGrid b q) bs
unfolding best_snap
best_snap-OnGrid p best [] q hs h = inl h
best_snap-OnGrid p best (b ∷ bs) q (hb, hs) h =
    elim (best_snap-OnGrid p (pick_best p best (snap b p)) bs q hs h) [
      | inl e ↦ elim (Option-cases (snap b p)) [
        | inl n ↦ inl (sym (ap (pick_best p best) n) ∙ e)
        | inr (c, s) ↦ from_candidate best c (sym (ap (pick_best p best) s) ∙ e) s
      ]
      | inr later ↦ inr (inr later)
    ]
  where
    from_candidate :
        (best : Option Px) (c : Px)
        → pick_best p best (some c) ≡ some q
        → snap b p ≡ some c
        → (best ≡ some q) ⊎ Any (λ b. OnGrid b q) (b ∷ bs)
    from_candidate none c e s = inr (inl (snap-OnGrid b p q hb (s ∙ e)))
    from_candidate (some x) c e s = elim (pick_cases p x c) [
      | inl y ↦ inr (inl (snap-OnGrid b p q hb (s ∙ ap some (sym y) ∙ e)))
      | inr y ↦ inl (ap some (sym y) ∙ e)
    ]

classify_price : (p q : Px) (within : Bool) → snap_price (classify p within q) ≡ q
unfolding snap_price
classify_price p q within = ground arith

-- A price that is snapped to a grid that was validated is a valid price of the grid.
snapped-is_valid :
    (bs : List PriceRange) (g : PriceRanges) (p : Px) (s : GridSnap)
    → new bs ≡ ok g
    → snap_to_grid g p ≡ some s
    → is_valid g (snap_price s) ≡ done true
unfolding snap_to_grid
snapped-is_valid bs g p s h e = elim (Option-cases (best_snap p none g.bands)) [
  | inl n ↦ absurd (cc (rw (n, snap_to_grid) at e))
  | inr (q, b) ↦
      elim (best_snap-OnGrid p none g.bands q
        (let (same, bands, sorted) = (new_iff bs g).0 h in rw same bands) b) [
          | inl x ↦ absurd (cc)
          | inr spot ↦ elim (is_valid_iff bs g (snap_price s) h) [
            | inl (valid, _) ↦ valid
            | inr (_, off) ↦
                let same = some-injective _ _ (rw (b, snap_to_grid) at e) in
                let price =
                  sym (classify_price p q (any_contains g.bands p)) ∙ ap snap_price same in
                absurd (off (subst (λ x. Any (λ b. OnGrid b x) g.bands) price spot))
          ]
        ]
]

-- The prices of a band are `i64` values.
abbrev pub IsI64Band : PriceRange → Type 0
IsI64Band b = InI64 b.start.micros × InI64 b.end.micros

between : (s e v : ℤ) → InI64 s → InI64 e → s ≤ℤ v → v ≤ℤ e → checked_i64 v ≡ some v
between (pos s) (pos e) (pos v) hs he h k = ground arith
between (pos s) (pos e) (negsuc v) hs he h k = absurd (ground arith)
between (pos s) (negsuc e) (pos v) hs he h k = absurd (ground arith)
between (pos s) (negsuc e) (negsuc v) hs he h k = absurd (ground arith)
between (negsuc s) (pos e) (pos v) hs he h k = ground arith
between (negsuc s) (pos e) (negsuc v) hs he h k = ground arith
between (negsuc s) (negsuc e) (pos v) hs he h k = absurd (ground arith)
between (negsuc s) (negsuc e) (negsuc v) hs he h k = ground arith

snap_total : (b : PriceRange) (p : Px) → IsBand b → IsI64Band b → (q : Px) × (snap b p ≡ some q)
unfolding snap
snap_total b p (hd, hse) (is, ie) =
    let s = b.start.micros in
    let t = clamp p.micros s b.end.micros in
    let lower = s +ℤ div_trunc (t -ℤ s) (magnitude b.step.micros) *ℤ b.step.micros in
    let v = nearer t lower (lower +ℤ b.step.micros) b.end.micros in
    let (hs, he) = clamp_range p.micros s b.end.micros hse in
    let (low, high, _) = chosen_point s b.end.micros t b.step.micros v hd hs he refl in
    (
      from_micros v,
      rw (not_refused b (hd, hse), snap) (ap map_px (between s b.end.micros v is ie low high)),
    )

best_snap-some : (p q : Px) (bs : List PriceRange) → (r : Px) × (best_snap p (some q) bs ≡ some r)
unfolding best_snap
best_snap-some p q [] = (q, refl)
best_snap-some p q (b ∷ bs) = elim (Option-cases (snap b p)) [
  | inl n ↦ rw (n) (best_snap-some p q bs)
  | inr (c, s) ↦ rw (s) (best_snap-some p (pick p q c) bs)
]

-- On a validated grid with at least one band, the first of `i64` prices, every price snaps, and to a valid price
-- of the grid.
pub snap_to_grid-is_valid :
    (b : PriceRange) (bs : List PriceRange) (g : PriceRanges) (p : Px)
    → new (b ∷ bs) ≡ ok g
    → IsI64Band b
    → (s : GridSnap) × (snap_to_grid g p ≡ some s) × (is_valid g (snap_price s) ≡ done true)
unfolding snap_to_grid best_snap
snap_to_grid-is_valid b bs g p h i =
    let (same, bands, sorted) = (new_iff (b ∷ bs) g).0 h in
    let (q, e) = snap_total b p bands.0 i in
    let (r, e') = best_snap-some p q bs in
    let best : best_snap p none g.bands ≡ some r =
      ap (best_snap p none) same ∙ ap (λ x. best_snap p (pick_best p none x) bs) e ∙ e' in
    let snapped = classify p (any_contains g.bands p) r in
    let found : snap_to_grid g p ≡ some snapped = rw (best, snap_to_grid) refl in
    (snapped, found, snapped-is_valid (b ∷ bs) g p snapped h found)
