-- ===== src/Store/Writer/Files.antt =====
-- The map of open files: what the writer uses of a `HashMap`.
use kalshi_alpha.Prelude.{
  ◌≡◌, inl, inr, refl, ap, subst, true, false, none, some, [], ◌∷◌, arith, All, Bool-cases,
}
use kalshi_alpha.Prelude.Text.{text_eq_refl, text_eq_sound}
use mathlib.Core.Option.{some-injective}
use kalshi_alpha.Store.Writer.{OpenFile, Key, eq_key, Files, get_file, remove_file, update_file}

pub eq_key_refl : (k : Key) → eq_key k k ≡ true
eq_key_refl k = ground (arith, text_eq_refl k.1)

-- Keys that a test joins are tested alike against any other.
pub eq_key_trans : (k j i : Key) → eq_key k j ≡ true → eq_key j i ≡ true → eq_key k i ≡ true
eq_key_trans k j i h h' =
    ground (arith, text_eq_sound k.1 j.1, text_eq_sound j.1 i.1, text_eq_refl i.1)

pub eq_key_sym : (k j : Key) → eq_key k j ≡ true → eq_key j k ≡ true
eq_key_sym k j h = ground (arith, text_eq_sound k.1 j.1, text_eq_refl k.1)

abbrev pub Absent : Key → Files → Type 0
Absent k = All (λ jf. eq_key jf.0 k ≡ false)

-- Every key occurs once, as in every map.
abbrev pub IsKeyed : Files → Type 0
IsKeyed [] = Unit
IsKeyed ((k, f) ∷ fs) = Absent k fs × IsKeyed fs

module _ {ℓ} (P : Key × OpenFile → Type ℓ) where
  pub All-remove : (k : Key) (fs : Files) → All P fs → All P (remove_file k fs)
  unfolding remove_file
  All-remove k [] h = tt
  All-remove k ((j, f) ∷ fs) h = elim (Bool-cases (eq_key j k)) [
    | inl e ↦ rw e h.1
    | inr e ↦ rw e (h.0, All-remove k fs h.1)
  ]

  pub All-update :
      (k : Key) (g : OpenFile → OpenFile) (fs : Files)
      → ((j : Key) (f : OpenFile) → P (j, f) → P (j, g f))
      → All P fs
      → All P (update_file k g fs)
  unfolding update_file
  All-update k g [] t h = tt
  All-update k g ((j, f) ∷ fs) t h = elim (Bool-cases (eq_key j k)) [
    | inl e ↦ rw e (t j f h.0, h.1)
    | inr e ↦ rw e (h.0, All-update k g fs t h.1)
  ]

pub remove-IsKeyed : (k : Key) (fs : Files) → IsKeyed fs → IsKeyed (remove_file k fs)
unfolding remove_file
remove-IsKeyed k [] h = tt
remove-IsKeyed k ((j, f) ∷ fs) h = elim (Bool-cases (eq_key j k)) [
  | inl e ↦ rw e h.1
  | inr e ↦ rw e (All-remove (λ jf. eq_key jf.0 j ≡ false) k fs h.0, remove-IsKeyed k fs h.1)
]

pub update-IsKeyed :
    (k : Key) (g : OpenFile → OpenFile) (fs : Files) → IsKeyed fs → IsKeyed (update_file k g fs)
unfolding update_file
update-IsKeyed k g [] h = tt
update-IsKeyed k g ((j, f) ∷ fs) h = elim (Bool-cases (eq_key j k)) [
  | inl e ↦ rw e h
  | inr e ↦
      rw e (
        All-update (λ jf. eq_key jf.0 j ≡ false) k g fs (λ i f x. x) h.0,
        update-IsKeyed k g fs h.1,
      )
]

-- A key that is not found is absent.
pub get_none-Absent : (k : Key) (fs : Files) → get_file k fs ≡ none → Absent k fs
unfolding get_file
get_none-Absent k [] h = tt
get_none-Absent k ((j, f) ∷ fs) h = elim (Bool-cases (eq_key j k)) [
  | inl e ↦ let n = rw e at h in absurd (cc)
  | inr e ↦ (e, get_none-Absent k fs (rw e at h))
]

pub get-All :
    (P : Key × OpenFile → Type 0) (k : Key) (fs : Files) (f : OpenFile)
    → get_file k fs ≡ some f
    → All P fs
    → (j : Key) × (eq_key j k ≡ true) × P (j, f)
unfolding get_file
get-All P k [] f e h = absurd (cc)
get-All P k ((j, g) ∷ fs) f e h = elim (Bool-cases (eq_key j k)) [
  | inl x ↦ let same = rw x at e in (j, x, subst (λ y. P (j, y)) (some-injective _ _ same) h.0)
  | inr x ↦ get-All P k fs f (rw x at e) h.1
]

pub get-update :
    (k : Key) (g : OpenFile → OpenFile) (fs : Files) (f : OpenFile)
    → get_file k fs ≡ some f
    → get_file k (update_file k g fs) ≡ some (g f)
unfolding get_file update_file
get-update k g [] f e = absurd (cc)
get-update k g ((j, h) ∷ fs) f e = elim (Bool-cases (eq_key j k)) [
  | inl x ↦ rw (x, get_file, x) (ap (λ y. some (g y)) (some-injective _ _ (rw (x) at e)))
  | inr x ↦ rw (x, get_file, x) (get-update k g fs f (rw (x) at e))
]

pub remove-Absent : (k : Key) (fs : Files) → Absent k fs → remove_file k fs ≡ fs
unfolding remove_file
remove-Absent k [] h = refl
remove-Absent k ((j, f) ∷ fs) h = rw (h.0) (ap (λ r. (j, f) ∷ r) (remove-Absent k fs h.1))

pub removed-Absent : (k : Key) (fs : Files) → IsKeyed fs → Absent k (remove_file k fs)
unfolding remove_file
removed-Absent k [] h = tt
removed-Absent k ((j, f) ∷ fs) h = elim (Bool-cases (eq_key j k)) [
  | inl e ↦ rw e (same_key k j fs e h.0)
  | inr e ↦ rw e (e, removed-Absent k fs h.1)
]
  where
    same_key : (k j : Key) (fs : Files) → eq_key j k ≡ true → Absent j fs → Absent k fs
    same_key k j [] e h = tt
    same_key k j ((i, g) ∷ fs) e h = (
      elim (Bool-cases (eq_key i k)) [
        | inl x ↦ let y = eq_key_trans i k j x (eq_key_sym j k e) in let z = h.0 in absurd (cc)
        | inr x ↦ x
      ],
      same_key k j fs e h.1,
    )

pub Absent-get : (k : Key) (fs : Files) → Absent k fs → get_file k fs ≡ none
unfolding get_file
Absent-get k [] h = refl
Absent-get k ((j, f) ∷ fs) h = rw (h.0) (Absent-get k fs h.1)
