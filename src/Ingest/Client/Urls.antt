-- ===== src/Ingest/Client/Urls.antt =====
-- Texts of the client in crates/ingest/src/rest.rs: the path that is signed, and a body cut short.
use kalshi_alpha.Prelude.{
  ℕ, zero, suc, ◌-◌, ◌≤◌, ◌≡◌, ◌≢◌, ◌⊎◌, inl, inr, refl, ap, true, [], ◌∷◌, ◌++◌, arith, leb, ◌==◌,
  Bool-cases,
}
use kalshi_alpha.Prelude.Text.{Text, codes, byte_len, utf8_len}
use kalshi_alpha.Ingest.Client.{
  is_char_boundary, slice_to, boundary_below, truncate, behind_scheme, behind_or, from_slash,
  cons_unless, trim_end, signing_prefix_from,
}

-- It ends in something else than a slash.
abbrev pub EndsPlain : Text → Type 0
EndsPlain [] = Unit
EndsPlain (c ∷ []) = c ≢ b'/'
EndsPlain (c ∷ d ∷ s) = EndsPlain (d ∷ s)

abbrev pub StartsWithSlash : Text → Type 0
StartsWithSlash [] = ⊥
StartsWithSlash (c ∷ s) = c ≡ b'/'

cons_unless-EndsPlain : (c : ℕ) (s : Text) → EndsPlain s → EndsPlain (cons_unless c s)
cons_unless-EndsPlain c [] h = elim (Bool-cases (c == b'/')) [
  | inl e ↦ rw e tt
  | inr e ↦ rw e (ground (arith))
]
cons_unless-EndsPlain c (d ∷ s) h = h

trim_end-EndsPlain : (s : Text) → EndsPlain (trim_end s)
unfolding trim_end
trim_end-EndsPlain [] = tt
trim_end-EndsPlain (c ∷ s) = cons_unless-EndsPlain c (trim_end s) (trim_end-EndsPlain s)

-- What cuts the end off a text that starts with a slash leaves nothing or starts with a slash.
trim_end_start : (s : Text) → StartsWithSlash s → (trim_end s ≡ []) ⊎ StartsWithSlash (trim_end s)
unfolding trim_end
trim_end_start [] h = absurd h
trim_end_start (c ∷ s) h = first c (trim_end s) h
  where
    first :
        (c : ℕ) (s : Text) → c ≡ b'/' → (cons_unless c s ≡ []) ⊎ StartsWithSlash (cons_unless c s)
    first c [] h = inl (rw h refl)
    first c (d ∷ s) h = inr h

from_slash_start : (s : Text) → (from_slash s ≡ []) ⊎ StartsWithSlash (from_slash s)
unfolding from_slash
from_slash_start [] = inl refl
from_slash_start (c ∷ s) = elim (Bool-cases (c == b'/')) [
  | inl e ↦ rw e (inr (ground (arith)))
  | inr e ↦ rw e (from_slash_start s)
]

abbrev pub IsPrefix : Text → Type 0
IsPrefix p = EndsPlain p × ((p ≡ []) ⊎ StartsWithSlash p)

prefix_of-IsPrefix : (s : Text) → IsPrefix (trim_end (from_slash s))
unfolding trim_end
prefix_of-IsPrefix s = (
  trim_end-EndsPlain (from_slash s),
  elim (from_slash_start s) [ inl e ↦ inl (rw e refl) | inr h ↦ trim_end_start (from_slash s) h ],
)

-- The prefix that is signed before each path is empty or starts with a slash, and it does not end
-- with one, for every base address.
pub signing_prefix_from_lem : (base_url : Text) → IsPrefix (signing_prefix_from base_url)
unfolding signing_prefix_from
signing_prefix_from_lem base_url = prefix_of-IsPrefix (behind_or base_url (behind_scheme base_url))

boundary_start : (s : Text) → is_char_boundary s 0 ≡ true
unfolding is_char_boundary
boundary_start [] = refl
boundary_start (c ∷ s) = refl

boundary_below_lem :
    (s : Text) (max : ℕ)
    → (boundary_below s max ≤ max) × (is_char_boundary s (boundary_below s max) ≡ true)
unfolding boundary_below
boundary_below_lem s zero = (ground (arith), boundary_start s)
boundary_below_lem s (suc i) = elim (Bool-cases (is_char_boundary s (suc i))) [
  | inl e ↦ rw e (omega (arith), e)
  | inr e ↦ rw e (omega (arith, (boundary_below_lem s i).0), (boundary_below_lem s i).1)
]

-- The text begins with the part, which has that many bytes.
abbrev pub BeginsWith : Text → Text → ℕ → Type 0
BeginsWith s part bytes = ((rest : Text) × (s ≡ part ++ rest)) × (byte_len part ≡ bytes)

slice_to-BeginsWith :
    (s : Text) (i : ℕ) → is_char_boundary s i ≡ true → BeginsWith s (slice_to s i) i
unfolding is_char_boundary slice_to
slice_to-BeginsWith [] zero h = (([], refl), refl)
slice_to-BeginsWith [] (suc i) h = absurd (cc)
slice_to-BeginsWith (c ∷ s) zero h = ((c ∷ s, refl), refl)
slice_to-BeginsWith (c ∷ s) (suc i) h = elim (Bool-cases (leb (utf8_len c) (suc i))) [
  | inl e ↦
      let ih = slice_to-BeginsWith s (suc i - utf8_len c) (rw e at h) in
      ((ih.0.0, ap (λ l. c ∷ l) ih.0.1), ground (arith, ih.1))
  | inr e ↦ let x = rw e at h in absurd (cc)
]

-- A text of at most `max` bytes is kept by `truncate`; of a longer one it keeps a part that it
-- begins with, of at most `max` bytes, and the dots.
pub truncate_lem :
    (s : Text) (max : ℕ)
    → ((byte_len s ≤ max) × (truncate s max ≡ s))
      ⊎ ((part : Text) × ((truncate s max ≡ part ++ codes "...")
            × ((byte_len part ≤ max) × ((rest : Text) × (s ≡ part ++ rest)))))
unfolding truncate
truncate_lem s max = elim (Bool-cases (leb (byte_len s) max)) [
  | inl e ↦ inl (ground (arith), rw e refl)
  | inr e ↦
      let b = boundary_below_lem s max in
      let p = slice_to-BeginsWith s (boundary_below s max) b.1 in
      inr (slice_to s (boundary_below s max), (rw e refl, (ground (arith, b.0, p.1), p.0)))
]
