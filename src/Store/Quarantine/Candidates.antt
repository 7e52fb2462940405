-- ===== src/Store/Quarantine/Candidates.antt =====
-- What the scan of crates/store/src/quarantine.rs inspects: the files that `collect` finds.
use kalshi_alpha.Prelude.{
  ◌≡◌, ◌≢◌, refl, ap, subst, true, false, List, [], ◌∷◌, ◌++◌, All, All-append, Result, ok, err,
  ◌>>=◌, Bool-cases, inl, inr,
}
use kalshi_alpha.Prelude.Text.{Text, codes, text_eq, text_eq_sound}
use kalshi_alpha.Store.Quarantine.{
  FilePath, QuarantineError, Entry, file, folder, lost, Folder, unreadable, readable, Entries, nil,
  cons, is_quarantine, is_parquet, collect_folder, collect_entry, collect_entries,
}

-- A path that does not lead into the quarantine.
abbrev pub IsOutside : FilePath → Type 0
IsOutside [] = ⊥
IsOutside (name ∷ names) = text_eq name (codes "_quarantine") ≡ false

abbrev IsOpen : FilePath → Type 0
IsOpen [] = Unit
IsOpen (name ∷ names) = text_eq name (codes "_quarantine") ≡ false

-- The last name has something before the extension.
abbrev pub HasExtension : Text → Type 0
HasExtension name = (stem : Text) × ((stem ≢ []) × (name ≡ stem ++ codes ".parquet"))

abbrev pub IsParquet : FilePath → Type 0
IsParquet path =
    (dir : FilePath) × (name : Text) × ((path ≡ dir ++ (name ∷ [])) × HasExtension name)

abbrev pub IsCandidate : FilePath → Type 0
IsCandidate path = IsOutside path × IsParquet path

abbrev pub AllOutside : Result QuarantineError (List FilePath) → Type 0
AllOutside (err e) = Unit
AllOutside (ok paths) = All IsCandidate paths

is_parquet-HasExtension : (name : Text) → is_parquet name ≡ true → HasExtension name
unfolding is_parquet
is_parquet-HasExtension [] h = absurd (cc)
is_parquet-HasExtension (c ∷ s) h = elim (Bool-cases (text_eq s (codes ".parquet"))) [
  | inl e ↦
      (c ∷ [], ((λ none. absurd (cc)), ap (λ t. c ∷ t) (text_eq_sound s (codes ".parquet") e)))
  | inr e ↦
      let (stem, (some_stem, same)) = is_parquet-HasExtension s (rw e at h) in
      (c ∷ stem, ((λ none. absurd (cc)), ap (λ t. c ∷ t) same))
]

parquet-outside :
    (name : Text) → is_parquet name ≡ true → text_eq name (codes "_quarantine") ≡ false
unfolding is_parquet text_eq
parquet-outside name h = elim (Bool-cases (text_eq name (codes "_quarantine"))) [
  | inl e ↦
      let same = subst (λ t. is_parquet t ≡ true) (text_eq_sound name (codes "_quarantine") e) h in
      absurd (cc)
  | inr e ↦ e
]

file-IsOutside :
    (dir : FilePath) (name : Text)
    → IsOpen dir
    → is_parquet name ≡ true
    → IsOutside (dir ++ (name ∷ []))
file-IsOutside [] name o h = parquet-outside name h
file-IsOutside (n ∷ ns) name o h = o

folder-IsOpen :
    (dir : FilePath) (name : Text)
    → IsOpen dir
    → is_quarantine (dir ++ (name ∷ [])) ≡ false
    → IsOpen (dir ++ (name ∷ []))
folder-IsOpen [] name o h = h
folder-IsOpen (n ∷ ns) name o h = o

joined-outside :
    (a b : Result QuarantineError (List FilePath))
    → AllOutside a
    → AllOutside b
    → AllOutside (a >>= λ first. b >>= λ rest. ok (first ++ rest))
joined-outside (err e) b ha hb = tt
joined-outside (ok first) (err e) ha hb = tt
joined-outside (ok first) (ok rest) ha hb = All-append IsCandidate first rest ha hb

mutual
  unfolding collect_folder

  pub folder_outside :
      (c : Folder) (dir : FilePath)
      → (is_quarantine dir ≡ false → IsOpen dir)
      → AllOutside (collect_folder dir c)
  folder_outside unreadable dir o = elim (Bool-cases (is_quarantine dir)) [
    | inl e ↦ rw e tt
    | inr e ↦ rw e tt
  ]
  folder_outside (readable es) dir o = elim (Bool-cases (is_quarantine dir)) [
    | inl e ↦ rw e tt
    | inr e ↦ rw e (entries_outside es dir (o e))
  ]

  entry_outside : (x : Entry) (dir : FilePath) → IsOpen dir → AllOutside (collect_entry dir x)
  entry_outside (file name) dir o = elim (Bool-cases (is_parquet name)) [
    | inl e ↦
        rw e
          ((file-IsOutside dir name o e, (dir, name, (refl, is_parquet-HasExtension name e))), tt)
    | inr e ↦ rw e tt
  ]
  entry_outside lost dir o = tt
  entry_outside (folder name c) dir o =
      folder_outside c (dir ++ (name ∷ [])) (λ h. folder-IsOpen dir name o h)

  entries_outside :
      (es : Entries) (dir : FilePath) → IsOpen dir → AllOutside (collect_entries dir es)
  entries_outside nil dir o = tt
  entries_outside (cons x es) dir o =
      joined-outside (collect_entry dir x) (collect_entries dir es) (entry_outside x dir o)
        (entries_outside es dir o)
