-- ===== src/Store/Quarantine/Complete.antt =====
-- Which files the inspection of crates/store/src/quarantine.rs takes for complete ones.
use kalshi_alpha.Prelude.{
  ℕ, ◌≤◌, ◌≡◌, ◌↔◌, ap, ◌∙◌, true, Option, none, some, ok, arith, Option-cases, inl, inr,
}
use kalshi_alpha.Prelude.Text.{Text, text_eq, text_eq_sound, text_eq_refl}
use kalshi_alpha.Store.Quarantine.{parquet_magic, min_parquet_len, FilePath, OpenFile, inspect}

-- The file is long enough, and starts and ends with the magic bytes.
abbrev pub IsComplete : OpenFile → Type 0
IsComplete f =
    ((n : ℕ) × (f.metadata_len ≡ some n) × (min_parquet_len ≤ n))
    × ((f.head ≡ some parquet_magic) × ((f.seeks ≡ true) × (f.tail ≡ some parquet_magic)))

inspect_complete : (path : FilePath) (f : OpenFile) → IsComplete f → inspect path (some f) ≡ ok none
unfolding inspect
inspect_complete path f ((n, e, h), (p, (s, t))) =
    rw (e, p, s, t) (ground (arith, text_eq_refl parquet_magic))

is_magic :
    (o : Option Text) (t : Text)
    → o ≡ some t
    → text_eq t parquet_magic ≡ true
    → o ≡ some parquet_magic
is_magic o t e h = e ∙ ap (λ x. some x) (text_eq_sound t parquet_magic h)

IsComplete-inspected :
    (path : FilePath) (f : OpenFile) → inspect path (some f) ≡ ok none → IsComplete f
unfolding inspect
IsComplete-inspected path f h = elim (Option-cases f.metadata_len) [
  | inl e ↦ absurd (ground arith)
  | inr (n, e) ↦ elim (Option-cases f.head) [
    | inl p ↦ absurd (ground arith)
    | inr (head, p) ↦ elim (Option-cases f.tail) [
      | inl t ↦ absurd (ground arith)
      | inr (tail, t) ↦ (
        (n, e, ground arith),
        (
          is_magic f.head head p (ground arith),
          (ground arith, is_magic f.tail tail t (ground arith)),
        ),
      )
    ]
  ]
]

-- An open file is taken for a complete one exactly when its length is known and at least 12, its
-- first four bytes are read as the magic ones, and so are its last four, after a seek.
pub inspect_iff :
    (path : FilePath) (f : OpenFile) → (inspect path (some f) ≡ ok none) ↔ IsComplete f
inspect_iff path f = (IsComplete-inspected path f, inspect_complete path f)
