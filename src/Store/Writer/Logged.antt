-- ===== src/Store/Writer/Logged.antt =====
-- The writer of crates/store/src/writer.rs on a disk that keeps its calls: what the store notes down
-- is what the disk has done.
use kalshi_alpha.Prelude.{
  ℕ, ◌+◌, ◌≡◌, ◌⊎◌, inl, inr, refl, sym, ap, subst, ◌∙◌, Bool, true, false, Option, none, some,
  List, [], ◌∷◌, arith, All, All-imp, Bool-cases, if◌then◌else◌, Result, ok, err, ℤ,
}
use mathlib.Core.Option.{some-injective}
use kalshi_alpha.Prelude.Text.{Text}
use kalshi_alpha.Store.Channel.{Channel}
use kalshi_alpha.Store.Session.{Calendar, SessionMetadata, sidecar_filename}
use kalshi_alpha.Store.Disk.{
  Disk, Call, create_dir, serialize_session, write_sidecar, create_file, start_writer, append,
  write_footer,
}
use kalshi_alpha.Store.Writer.{
  WriteError, create_dir_failed, open_failed, sidecar_failed, parquet_failed, serialize_failed,
  OpenFile, Key, get_file, remove_file, contains_text, ParquetStore, partition_key, join,
  partition_dir, file_path, should_roll,
}
use kalshi_alpha.Store.Writer.Steps.{
  World, attempt, next, ensure_sidecar, open_file, open_absent, ensure_open, close_file,
  close_found, close_each, close_every, first_error, rewrite_sidecars, append_found, append_batch,
  write_batch, write_encoded,
}
use kalshi_alpha.Store.Writer.Files.{get-update}

abbrev pub Log : Type 0
Log = List (Call × Bool)

-- The disk, with its calls and what they answered, the latest first.
abbrev pub logged : Disk → Disk
logged D = record {
  State = D.State × Log;
  perform = λ (d, log) call.
      let (d', success) = D.perform d call in ((d', (call, success) ∷ log), success);
}

abbrev pub rows_in : Call → ℕ
rows_in (create_dir dir) = 0
rows_in serialize_session = 0
rows_in (write_sidecar path) = 0
rows_in (create_file path) = 0
rows_in (start_writer path) = 0
rows_in (append path rows) = rows
rows_in (write_footer path) = 0

-- The rows that the disk has taken.
abbrev pub appended : Log → ℕ
appended [] = 0
appended ((call, true) ∷ log) = appended log + rows_in call
appended ((call, false) ∷ log) = appended log

-- The call was made, and succeeded.
abbrev pub Succeeded : Call → Log → Type 0
Succeeded call [] = ⊥
Succeeded call (e ∷ log) = (e ≡ (call, true)) ⊎ Succeeded call log

-- The sidecar of a directory was written.
abbrev pub HasSidecar : SessionMetadata → Log → Text → Type 0
HasSidecar session log dir = Succeeded (write_sidecar (join dir (sidecar_filename session))) log

-- A run that fails in `E` and succeeds in `Q`.
abbrev pub Runs : {W A : Type 0} → (W → Type 0) → (W → Type 0) → W × Result WriteError A → Type 0
Runs E Q (w, ok a) = Q w
Runs E Q (w, err e) = E w

pub next-Runs :
    {W A B : Type 0} (E Q R : W → Type 0) (r : W × Result WriteError A)
    (f : A → W → W × Result WriteError B)
    → Runs E Q r
    → ((a : A) (w : W) → Q w → Runs E R (f a w))
    → Runs E R (next r f)
next-Runs E Q R (w, ok a) f h t = t a w h
next-Runs E Q R (w, err e) f h t = h

pub map-Runs :
    {W A : Type 0} (E Q R : W → Type 0) (r : W × Result WriteError A)
    → Runs E Q r
    → ((w : W) → Q w → R w)
    → Runs E R r
map-Runs E Q R (w, ok a) h t = t w h
map-Runs E Q R (w, err e) h t = h

if-Runs :
    {W A : Type 0} (E Q : W → Type 0) (b : Bool) (x y : W × Result WriteError A)
    → Runs E Q x
    → Runs E Q y
    → Runs E Q (if b then x else y)
if-Runs E Q true x y h k = h
if-Runs E Q false x y h k = k

pub always : {W A : Type 0} (P : W → Type 0) (r : W × Result WriteError A) → Runs P P r → P r.0
always P (w, ok a) h = h
always P (w, err e) h = h

module _ (c : Calendar) (D : Disk) where
  abbrev pub LoggedWorld : Type 0
  LoggedWorld = World (logged D) c

  -- The counter of rows is what the disk has taken, but for so many rows that are not counted yet, and
  -- each directory that is noted down has its sidecar.
  abbrev pub IsLogged : ℕ → LoggedWorld → Type 0
  IsLogged n w =
      (w.1.rows_written + n ≡ appended w.0.1)
      × All (HasSidecar w.1.session w.0.1) w.1.sidecars_written

  abbrev I : LoggedWorld → Type 0
  I = IsLogged 0

  IsLogged-more :
      (e : Call × Bool) (d d' : D.State) (log : Log) (s : ParquetStore) (n : ℕ)
      → s.rows_written + n ≡ appended (e ∷ log)
      → I ((d, log), s)
      → IsLogged n ((d', e ∷ log), s)
  IsLogged-more e d d' log s n h i = (h, All-imp (λ dir x. inr x) s.sidecars_written i.1)

  -- A call has succeeded.
  abbrev After : Call → ParquetStore → LoggedWorld → Type 0
  After call s w = IsLogged (rows_in call) w × (Succeeded call w.0.1 × (w.1 ≡ s))

  attempt-Runs :
      (call : Call) (e : WriteError) (w : LoggedWorld)
      → I w
      → Runs I (After call w.1) (attempt (logged D) c call e w)
  attempt-Runs call e ((d, log), s) i = elim (Bool-cases ((D.perform d call).1)) [
    | inl x ↦ rw x (
      IsLogged-more (call, true) d (D.perform d call).0 log s (rows_in call) (omega (arith, i.0)) i,
      (inl refl, refl),
    )
    | inr x ↦ rw x (IsLogged-more (call, false) d (D.perform d call).0 log s 0 i.0 i)
  ]

  close_found-Runs :
      (k : Key) (o : Option OpenFile) (w : LoggedWorld)
      → I w
      → Runs I I (close_found (logged D) c k o w)
  close_found-Runs k none w i = i
  close_found-Runs k (some f) (d, s) i =
      next-Runs I (After (write_footer f.path) (record s { files = remove_file k s.files })) I _ _
        (attempt-Runs (write_footer f.path) (parquet_failed f.path)
          (d, record s { files = remove_file k s.files }) i)
        (λ _ v h. h.0)

  ensure_sidecar-Runs :
      (dir : Text) (w : LoggedWorld) → I w → Runs I I (ensure_sidecar (logged D) c dir w)
  unfolding ensure_sidecar
  ensure_sidecar-Runs dir (d, s) i =
      let path = join dir (sidecar_filename s.session) in
      if-Runs I I (contains_text dir s.sidecars_written) _ _ i (
        next-Runs I (After serialize_session s) I _ _
          (attempt-Runs serialize_session serialize_failed (d, s) i)
          λ _ v h.
            next-Runs I (After (write_sidecar path) v.1) I _ _
              (attempt-Runs (write_sidecar path) (sidecar_failed path) v h.0)
              λ _ v' (j, (written, same)). (
                j.0,
                (
                  subst (λ (t : ParquetStore). HasSidecar t.session v'.0.1 dir) (sym (same ∙ h.1.1))
                      written,
                  j.1,
                ),
              ))

  open_file-Runs :
      (channel : Channel) (partition : Text) (at : ℤ) (w : LoggedWorld)
      → I w
      → Runs I I (open_file (logged D) c channel partition at w)
  unfolding open_file
  open_file-Runs channel partition at (d, s) i =
      let dir = partition_dir c s.config.root channel at in
      let path = file_path c s channel at in
      next-Runs I (After (create_dir dir) s) I _ _
        (attempt-Runs (create_dir dir) (create_dir_failed dir) (d, s) i)
        λ _ v h. next-Runs I I I _ _ (ensure_sidecar-Runs dir v h.0) λ _ v' h'.
          next-Runs I (After (create_file path) v'.1) I _ _
            (attempt-Runs (create_file path) (open_failed path) v' h')
            λ _ v'' h''.
              next-Runs I (After (start_writer path) v''.1) I _ _
                (attempt-Runs (start_writer path) (parquet_failed path) v'' h''.0)
                λ _ v''' h'''. h'''.0

  open_absent-Runs :
      (channel : Channel) (partition : Text) (at : ℤ) (o : Option OpenFile) (w : LoggedWorld)
      → I w
      → Runs I I (open_absent (logged D) c channel partition at o w)
  unfolding open_absent
  open_absent-Runs channel partition at none w i = open_file-Runs channel partition at w i
  open_absent-Runs channel partition at (some f) w i = i

  -- The rows went to the open file of the key.
  abbrev pub Took : Key → ℕ → LoggedWorld → Type 0
  Took k rows w =
      (f : OpenFile) → get_file k w.1.files ≡ some f → Succeeded (append f.path rows) w.0.1

  append_found-Runs :
      (k : Key) (rows bytes : ℕ) (o : Option OpenFile) (w : LoggedWorld)
      → get_file k w.1.files ≡ o
      → I w
      → Runs I (λ v. I v × Took k rows v) (append_found (logged D) c k rows bytes o w)
  append_found-Runs k rows bytes none w e i = (i, λ f found. absurd (cc))
  append_found-Runs k rows bytes (some f) (d, s) e i =
      next-Runs I (After (append f.path rows) s) (λ v. I v × Took k rows v) _ _
        (attempt-Runs (append f.path rows) (parquet_failed f.path) (d, s) i)
        λ _ v (j, (taken, same)). (
          (omega (arith, j.0), j.1),
          λ g found.
              subst (λ (h : OpenFile). Succeeded (append h.path rows) v.0.1)
                (some-injective _ _ (
                  sym (
                    get-update k _ v.1.files f
                      (ap (λ (t : ParquetStore). get_file k t.files) same ∙ e))
                  ∙ found))
                taken,
        )

  pub write_batch-Runs :
      (channel : Channel) (rows bytes : ℕ) (at : ℤ) (w : LoggedWorld)
      → I w
      → Runs I
          (λ v. I v × Took (channel, partition_key c at) rows v)
          (write_batch (logged D) c channel rows bytes at w)
  unfolding write_batch close_file ensure_open append_batch
  write_batch-Runs channel rows bytes at (d, s) i =
      let k : Key = (channel, partition_key c at) in
      next-Runs I I (λ v. I v × Took k rows v) _ _
        (if-Runs I I (should_roll s k at) _ _ (close_found-Runs k (get_file k s.files) (d, s) i) i)
        λ _ v h.
          next-Runs I I (λ v. I v × Took k rows v) _ _
            (open_absent-Runs channel k.1 at (get_file k v.1.files) v h)
            λ _ v' h'. append_found-Runs k rows bytes (get_file k v'.1.files) v' refl h'

  pub write_encoded-Runs :
      (channel : Channel) (at : ℤ) (a : Result Unit (Option (ℕ × ℕ))) (w : LoggedWorld)
      → I w
      → Runs I I (write_encoded (logged D) c channel at a w)
  write_encoded-Runs channel at (err _) w i = i
  write_encoded-Runs channel at (ok none) w i = i
  write_encoded-Runs channel at (ok (some (rows, bytes))) w i =
      next-Runs I (λ v. I v × Took (channel, partition_key c at) rows v) I _ _
        (write_batch-Runs channel rows bytes at w i) λ _ v h. h.0

  pub close_each-Runs :
      (ks : List Key) (w : LoggedWorld) → I w → Runs I I (close_each (logged D) c ks w)
  unfolding close_each close_file
  close_each-Runs [] w i = i
  close_each-Runs (k ∷ ks) (d, s) i =
      next-Runs I I I _ _ (close_found-Runs k (get_file k s.files) (d, s) i)
        λ _ v h. close_each-Runs ks v h

  pub close_every-Logged :
      (ks : List Key) (e : Option WriteError) (w : LoggedWorld)
      → I w
      → I (close_every (logged D) c ks e w).0
  unfolding close_every close_file
  close_every-Logged [] e w i = i
  close_every-Logged (k ∷ ks) e (d, s) i =
      let r = close_found (logged D) c k (get_file k s.files) (d, s) in
      close_every-Logged ks (first_error (logged D) c e r.1) r.0
        (always I r (close_found-Runs k (get_file k s.files) (d, s) i))

  noted :
      (d : D.State × Log) (s : ParquetStore) (call : Call)
      → rows_in call ≡ 0
      → I (d, s)
      → I (((logged D).perform d call).0, s)
  noted (d, log) s call h i = elim (Bool-cases ((D.perform d call).1)) [
    | inl x ↦ rw x (IsLogged-more (call, true) d d log s 0 (omega (arith, h, i.0)) i)
    | inr x ↦ rw x (IsLogged-more (call, false) d d log s 0 i.0 i)
  ]

  pub rewrite_sidecars-Logged :
      (dirs : List Text) (d : D.State × Log) (session : SessionMetadata) (s : ParquetStore)
      → I (d, s)
      → I (rewrite_sidecars (logged D) c dirs d session, s)
  unfolding rewrite_sidecars
  rewrite_sidecars-Logged [] d session s i = i
  rewrite_sidecars-Logged (dir ∷ dirs) d session s i = rewrite_sidecars-Logged dirs _ session s (
      written (D.perform d.0 serialize_session).1 ((logged D).perform d serialize_session).0
        (noted d s serialize_session refl i))
    where
      path : Text
      path = join dir (sidecar_filename session)

      written :
          (b : Bool) (d' : D.State × Log)
          → I (d', s)
          → I (if b then ((logged D).perform d' (write_sidecar path)).0 else d', s)
      written true d' i = noted d' s (write_sidecar path) refl i
      written false d' i = i
