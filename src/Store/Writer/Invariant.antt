-- ===== src/Store/Writer/Invariant.antt =====
-- What every operation of crates/store/src/writer.rs keeps, whatever calls of the disk fail.
use kalshi_alpha.Prelude.{
  ℕ, ◌+◌, ◌≤◌, ◌≡◌, inl, inr, refl, Bool, true, false, Option, none, some, List, [], ◌∷◌, arith,
  All, Bool-cases, if◌then◌else◌, Result, ok, err,
}
use kalshi_alpha.Prelude.Text.{Text}
use kalshi_alpha.Store.Session.{Calendar}
use kalshi_alpha.Store.Disk.{Disk, Call, append, write_footer}
use kalshi_alpha.Store.Writer.{
  WriteError, parquet_failed, OpenFile, Key, Files, remove_file, update_file, contains_text,
  ParquetStore, partition_key, partition_dir,
}
use kalshi_alpha.Store.Writer.Steps.{attempt, next, close_found, append_found}
use kalshi_alpha.Store.Writer.Files.{
  IsKeyed, All-remove, All-update, remove-IsKeyed, update-IsKeyed,
}

abbrev pub rows_of : Files → ℕ
rows_of [] = 0
rows_of ((k, f) ∷ fs) = f.rows + rows_of fs

pub rows_of-remove : (k : Key) (fs : Files) → rows_of (remove_file k fs) ≤ rows_of fs
unfolding remove_file
rows_of-remove k [] = ground (arith)
rows_of-remove k ((j, f) ∷ fs) = ground (arith, rows_of-remove k fs)

pub rows_of-update :
    (k : Key) (n : ℕ) (bytes : ℕ) (fs : Files)
    → rows_of (update_file k (λ g. record g { rows = g.rows + n; bytes = g.bytes + bytes }) fs)
      ≤ rows_of fs + n
unfolding update_file
rows_of-update k n bytes [] = ground (arith)
rows_of-update k n bytes ((j, f) ∷ fs) = ground (arith, rows_of-update k n bytes fs)

-- An operation leaves the store in `I`, and in `Q` as well where it succeeds.
abbrev pub Ends :
    {W A : Type 0}
    → (ParquetStore → Type 0)
    → (ParquetStore → Type 0)
    → (W × ParquetStore) × Result WriteError A
    → Type 0
Ends I Q ((d, s), ok a) = I s × Q s
Ends I Q ((d, s), err e) = I s

pub next-Ends :
    {W A B : Type 0} (I Q R : ParquetStore → Type 0) (r : (W × ParquetStore) × Result WriteError A)
    (f : A → W × ParquetStore → (W × ParquetStore) × Result WriteError B)
    → Ends I Q r
    → ((a : A) (d : W) (s : ParquetStore) → I s → Q s → Ends I R (f a (d, s)))
    → Ends I R (next r f)
next-Ends I Q R ((d, s), ok a) f h t = t a d s h.0 h.1
next-Ends I Q R ((d, s), err e) f h t = h

pub if-Ends :
    {W A : Type 0} (I Q : ParquetStore → Type 0) (b : Bool)
    (x y : (W × ParquetStore) × Result WriteError A)
    → (b ≡ true → Ends I Q x)
    → (b ≡ false → Ends I Q y)
    → Ends I Q (if b then x else y)
if-Ends I Q true x y h h' = h refl
if-Ends I Q false x y h h' = h' refl

module _ (c : Calendar) where
  -- An open file lies in the partition of its key, was opened on that date, and its directory has the sidecar.
  abbrev pub IsPlaced : ParquetStore → Key × OpenFile → Type 0
  IsPlaced s (k, f) =
      (f.partition_date ≡ k.1)
      × ((k.1 ≡ partition_key c f.opened_at)
          × (contains_text (partition_dir c s.config.root k.0 f.opened_at) s.sidecars_written
              ≡ true))

  abbrev pub IsStore : ParquetStore → Type 0
  IsStore s = IsKeyed s.files × (All (IsPlaced s) s.files × (rows_of s.files ≤ s.rows_written))

  pub All-weaken :
      {A : Type 0} (P Q : A → Type 0) (xs : List A) → ((x : A) → P x → Q x) → All P xs → All Q xs
  All-weaken P Q [] t h = tt
  All-weaken P Q (x ∷ xs) t h = (t x h.0, All-weaken P Q xs t h.1)

  module _ (D : Disk) where
    pub attempt-Ends :
        (I Q : ParquetStore → Type 0) (call : Call) (e : WriteError) (d : D.State)
        (s : ParquetStore)
        → I s
        → Q s
        → Ends I Q (attempt D c call e (d, s))
    attempt-Ends I Q call e d s i q = elim (Bool-cases ((D.perform d call).1)) [
      | inl x ↦ rw x (i, q)
      | inr x ↦ rw x i
    ]

    pub close_found-IsStore :
        (k : Key) (o : Option OpenFile) (d : D.State) (s : ParquetStore)
        → IsStore s
        → Ends IsStore (λ t. Unit) (close_found D c k o (d, s))
    close_found-IsStore k none d s i = (i, tt)
    close_found-IsStore k (some f) d s (h, (p, r)) =
        let s' : ParquetStore = record s { files = remove_file k s.files } in
        let kept : IsStore s' = (
          remove-IsKeyed k s.files h,
          (All-remove (IsPlaced s) k s.files p, omega (arith, rows_of-remove k s.files, r)),
        ) in
        next-Ends IsStore IsStore (λ t. Unit) _ _
          (attempt-Ends IsStore IsStore (write_footer f.path) (parquet_failed f.path) d s' kept
            kept)
          (λ _ d' s'' i _. (i, tt))

    pub append_found-IsStore :
        (k : Key) (rows bytes : ℕ) (o : Option OpenFile) (d : D.State) (s : ParquetStore)
        → IsStore s
        → Ends IsStore (λ t. Unit) (append_found D c k rows bytes o (d, s))
    append_found-IsStore k rows bytes none d s i = (i, tt)
    append_found-IsStore k rows bytes (some f) d s i =
        next-Ends IsStore IsStore (λ t. Unit) _ _
          (attempt-Ends IsStore IsStore (append f.path rows) (parquet_failed f.path) d s i i)
          (λ _ d' s' (h, (p, r)) _. (
            (
              update-IsKeyed k _ s'.files h,
              (
                All-update (IsPlaced s') k _ s'.files (λ j g x. x) p,
                omega (arith, rows_of-update k rows bytes s'.files, r),
              ),
            ),
            tt,
          ))

  pub IsStore-sidecar :
      (dir : Text) (s : ParquetStore)
      → IsStore s
      → IsStore (record s { sidecars_written = dir ∷ s.sidecars_written })
  unfolding contains_text
  IsStore-sidecar dir s (h, (p, r)) = (
    h,
    (All-weaken (IsPlaced s) _ s.files (λ x (a, (b, e)). (a, (b, rw e (ground (arith))))) p, r),
  )
