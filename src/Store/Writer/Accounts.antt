-- ===== src/Store/Writer/Accounts.antt =====
-- What crates/store/src/writer.rs counts: the rows it expects of the records and the rows it writes.
use kalshi_alpha.Prelude.{
  ℕ, ◌+◌, ◌≤◌, ◌≡◌, ◌⊎◌, inl, inr, refl, ap, subst, Bool, true, false, Option, none, some, arith,
  if◌then◌else◌, Result, ok, err, ℤ, ◌-ℤ◌, ◌<ℤ◌, leb_ℤ, leb, not,
}
use kalshi_alpha.Prelude.Text.{Text, text_eq}
use kalshi_alpha.Store.Channel.{Channel}
use kalshi_alpha.Store.Session.{Calendar, sidecar_filename}
use kalshi_alpha.Store.Disk.{
  Disk, create_dir, serialize_session, write_sidecar, create_file, start_writer, append,
  write_footer,
}
use kalshi_alpha.Store.Writer.{
  WriteError, WriterConfig, create_dir_failed, open_failed, sidecar_failed, parquet_failed,
  serialize_failed, OpenFile, Key, get_file, remove_file, contains_text, ParquetStore,
  partition_key, join, partition_dir, file_path, is_due_found, should_roll,
}
use kalshi_alpha.Store.Writer.Steps.{
  next, ensure_sidecar, open_file, open_absent, ensure_open, close_file, close_found, append_found,
  append_batch, write_batch,
}
use kalshi_alpha.Store.Writer.Files.{IsKeyed, removed-Absent, Absent-get, get-update, eq_key_refl}
use kalshi_alpha.Store.Writer.Invariant.{Ends, next-Ends, if-Ends, attempt-Ends}

-- A file is younger than the roll age.
abbrev pub Young : WriterConfig → ℤ → OpenFile → Type 0
Young config at f = at -ℤ f.opened_at <ℤ config.max_file_age

pub Young-lem :
    (config : WriterConfig) (at : ℤ) (f : OpenFile)
    → leb_ℤ config.max_file_age (at -ℤ f.opened_at) ≡ false
    → Young config at f
Young-lem config at f h = omega (arith, below config.max_file_age (at -ℤ f.opened_at) h)
  where
    below : (m x : ℤ) → leb_ℤ m x ≡ false → x <ℤ m
    below m x h = ground arith

abbrev pub Counted : ℕ → ℕ → ℕ → ParquetStore → Type 0
Counted w x r s = (s.rows_written ≡ w) × ((s.rows_expected ≡ x) × (s.records_dequeued ≡ r))

-- A run that fails in `E` and succeeds in `Q`.
abbrev pub Exits :
    {W A : Type 0}
    → (ParquetStore → Type 0)
    → (ParquetStore → Type 0)
    → (W × ParquetStore) × Result WriteError A
    → Type 0
Exits E Q ((d, s), ok a) = Q s
Exits E Q ((d, s), err e) = E s

next-Exits :
    {W A B : Type 0} (I Q R : ParquetStore → Type 0) (r : (W × ParquetStore) × Result WriteError A)
    (f : A → W × ParquetStore → (W × ParquetStore) × Result WriteError B)
    → Ends I Q r
    → ((a : A) (d : W) (s : ParquetStore) → I s → Q s → Exits I R (f a (d, s)))
    → Exits I R (next r f)
next-Exits I Q R ((d, s), ok a) f h t = t a d s h.0 h.1
next-Exits I Q R ((d, s), err e) f h t = h

module _ (c : Calendar) (D : Disk) where
  module _ (w x r : ℕ) (at : ℤ) (k : Key) where
    -- The file of the key, if there is one, may take a batch at the instant.
    abbrev pub MayTake : ParquetStore → Type 0
    MayTake s =
        (f : OpenFile) → get_file k s.files ≡ some f → Young s.config at f ⊎ (f.opened_at ≡ at)

    abbrev pub HasFile : ParquetStore → Type 0
    HasFile s =
        (f : OpenFile) × ((get_file k s.files ≡ some f)
          × (Young s.config at f ⊎ (f.opened_at ≡ at)))

    abbrev I : ParquetStore → Type 0
    I = Counted w x r

    close_found-MayTake :
        (o : Option OpenFile) (d : D.State) (s : ParquetStore)
        → get_file k s.files ≡ o
        → IsKeyed s.files
        → I s
        → Ends I MayTake (close_found D c k o (d, s))
    close_found-MayTake none d s e h i = (i, λ f e'. absurd (cc))
    close_found-MayTake (some f) d s e h i =
        let s' : ParquetStore = record s { files = remove_file k s.files } in
        let gone : get_file k (remove_file k s.files) ≡ none =
          Absent-get k (remove_file k s.files) (removed-Absent k s.files h) in
        let may : MayTake s' = λ f e'. absurd (cc) in
        next-Ends I MayTake MayTake _ _
          (attempt-Ends c D I MayTake (write_footer f.path) (parquet_failed f.path) d s' i may)
          λ _ d' s'' i' q. (i', q)

    kept-MayTake : (s : ParquetStore) → should_roll s k at ≡ false → MayTake s
    unfolding should_roll
    kept-MayTake s e f e' = inl (
        Young-lem s.config at f (
          last_test (not (text_eq f.partition_date k.1)) (leb s.config.max_file_bytes f.bytes) _
            (subst (λ o. is_due_found s.config k at o ≡ false) e' e)))
      where
        last_test : (p q b : Bool) → (if p then true else if q then true else b) ≡ false → b ≡ false
        last_test true q b e = absurd (cc)
        last_test false true b e = absurd (cc)
        last_test false false b e = e

  module _ (w x r : ℕ) (at : ℤ) where
    ensure_sidecar-Counted :
        (dir : Text) (d : D.State) (s : ParquetStore)
        → Counted w x r s
        → Ends (Counted w x r) (λ t. Unit) (ensure_sidecar D c dir (d, s))
    unfolding ensure_sidecar
    ensure_sidecar-Counted dir d s i =
        let I = Counted w x r in
        let U : ParquetStore → Type 0 = λ t. Unit in
        let path = join dir (sidecar_filename s.session) in
        if-Ends I U (contains_text dir s.sidecars_written) _ _ (λ _. (i, tt))
          λ _.
            next-Ends I U U _ _ (attempt-Ends c D I U serialize_session serialize_failed d s i tt)
              λ _ d1 s1 i1 _.
                next-Ends I U U _ _
                  (attempt-Ends c D I U (write_sidecar path) (sidecar_failed path) d1 s1 i1 tt)
                  λ _ d2 s2 i2 _. (i2, tt)

    open_file-HasFile :
        (channel : Channel) (partition : Text) (d : D.State) (s : ParquetStore)
        → Counted w x r s
        → Ends
            (Counted w x r)
            (HasFile w x r at (channel, partition))
            (open_file D c channel partition at (d, s))
    unfolding open_file get_file
    open_file-HasFile channel partition d s i =
        let I = Counted w x r in
        let U : ParquetStore → Type 0 = λ t. Unit in
        let H = HasFile w x r at (channel, partition) in
        let dir = partition_dir c s.config.root channel at in
        let path = file_path c s channel at in
        next-Ends I U H _ _ (attempt-Ends c D I U (create_dir dir) (create_dir_failed dir) d s i tt)
          λ _ d1 s1 i1 _. next-Ends I U H _ _ (ensure_sidecar-Counted dir d1 s1 i1) λ _ d2 s2 i2 _.
            next-Ends I U H _ _
              (attempt-Ends c D I U (create_file path) (open_failed path) d2 s2 i2 tt)
              λ _ d3 s3 i3 _.
                next-Ends I U H _ _
                  (attempt-Ends c D I U (start_writer path) (parquet_failed path) d3 s3 i3 tt)
                  λ _ d4 s4 i4 _.
                    let f : OpenFile = record {
                      path = path;
                      opened_at = at;
                      bytes = 0;
                      rows = 0;
                      partition_date = partition;
                    } in
                    (i4, (f, (rw (eq_key_refl (channel, partition)) refl, inr refl)))

    open_absent-HasFile :
        (channel : Channel) (partition : Text) (o : Option OpenFile) (d : D.State)
        (s : ParquetStore)
        → get_file (channel, partition) s.files ≡ o
        → Counted w x r s
        → MayTake w x r at (channel, partition) s
        → Ends
            (Counted w x r)
            (HasFile w x r at (channel, partition))
            (open_absent D c channel partition at o (d, s))
    unfolding open_absent
    open_absent-HasFile channel partition none d s e i m = open_file-HasFile channel partition d s i
    open_absent-HasFile channel partition (some f) d s e i m = (i, (f, (e, m f e)))

    -- The file of the key has a batch of that many rows.
    abbrev pub BatchFile : Key → ℕ → ParquetStore → Type 0
    BatchFile k rows t =
        (f : OpenFile) × ((get_file k t.files ≡ some f)
          × ((rows ≤ f.rows) × (Young t.config at f ⊎ (f.opened_at ≡ at))))

    abbrev pub HasBatch : Key → ℕ → ParquetStore → Type 0
    HasBatch k rows t = Counted (w + rows) x r t × BatchFile k rows t

    append_found-HasBatch :
        (k : Key) (rows bytes : ℕ) (o : Option OpenFile) (d : D.State) (s : ParquetStore)
        → get_file k s.files ≡ o
        → Counted w x r s
        → HasFile w x r at k s
        → Exits (Counted w x r) (HasBatch k rows) (append_found D c k rows bytes o (d, s))
    append_found-HasBatch k rows bytes none d s e i h = let y = h.1.0 in absurd (cc)
    append_found-HasBatch k rows bytes (some g) d s e i h =
        let I = Counted w x r in
        let H = HasFile w x r at k in
        next-Exits I H (HasBatch k rows) _ _
          (attempt-Ends c D I H (append g.path rows) (parquet_failed g.path) d s i h)
          λ _ d1 s1 i1 (f, (found, age)). (
            (ap (λ n. n + rows) (i1.0), i1.1),
            (
              record f { rows = f.rows + rows; bytes = f.bytes + bytes },
              (get-update k _ s1.files f found, (ground (arith), age)),
            ),
          )

    pub write_batch-HasBatch :
        (channel : Channel) (rows bytes : ℕ) (d : D.State) (s : ParquetStore)
        → IsKeyed s.files
        → Counted w x r s
        → Exits
            (Counted w x r)
            (HasBatch (channel, partition_key c at) rows)
            (write_batch D c channel rows bytes at (d, s))
    unfolding write_batch close_file append_batch ensure_open
    write_batch-HasBatch channel rows bytes d s h i =
        let I = Counted w x r in
        let k : Key = (channel, partition_key c at) in
        let M = MayTake w x r at k in
        let H = HasFile w x r at k in
        next-Exits I M (HasBatch k rows) _ _
          (if-Ends I M (should_roll s k at) _ _
            (λ _. close_found-MayTake w x r at k (get_file k s.files) d s refl h i)
            λ e. (i, kept-MayTake w x r at k s e))
          λ _ d1 s1 i1 m1.
            next-Exits I H (HasBatch k rows) _ _
              (open_absent-HasFile channel k.1 (get_file k s1.files) d1 s1 refl i1 m1)
              λ _ d2 s2 i2 h2.
                append_found-HasBatch k rows bytes (get_file k s2.files) d2 s2 refl i2 h2
