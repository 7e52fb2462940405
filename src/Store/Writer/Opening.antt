-- ===== src/Store/Writer/Opening.antt =====
-- Opening a file in crates/store/src/writer.rs: the sidecar first, then the file.
use kalshi_alpha.Prelude.{ℕ, ◌≡◌, refl, true, Option, none, some, arith, ℤ}
use kalshi_alpha.Prelude.Text.{text_eq_refl, Text}
use kalshi_alpha.Store.Channel.{Channel}
use kalshi_alpha.Store.Session.{Calendar, sidecar_filename}
use kalshi_alpha.Store.Disk.{
  Disk, create_dir, serialize_session, write_sidecar, create_file, start_writer,
}
use kalshi_alpha.Store.Writer.{
  create_dir_failed, open_failed, sidecar_failed, parquet_failed, serialize_failed, WriterConfig,
  OpenFile, Key, Files, get_file, contains_text, ParquetStore, partition_key, join, partition_dir,
  file_path, should_roll,
}
use kalshi_alpha.Store.Writer.Steps.{
  ensure_sidecar, open_file, open_absent, ensure_open, close_file, append_batch, write_batch,
}
use kalshi_alpha.Store.Writer.Files.{Absent, get_none-Absent}
use kalshi_alpha.Store.Writer.Invariant.{
  Ends, next-Ends, if-Ends, IsStore, attempt-Ends, IsStore-sidecar, close_found-IsStore,
  append_found-IsStore,
}

module _ (c : Calendar) (D : Disk) where
  -- What a sidecar does not change goes with it.
  pub ensure_sidecar-Ends :
      (Q : Files → WriterConfig → Type 0) (dir : Text) (d : D.State) (s : ParquetStore)
      → IsStore c s
      → Q s.files s.config
      → Ends
          (IsStore c)
          (λ t. Q t.files t.config × (contains_text dir t.sidecars_written ≡ true))
          (ensure_sidecar D c dir (d, s))
  unfolding ensure_sidecar contains_text
  ensure_sidecar-Ends Q dir d s i q =
      let I = IsStore c in
      let P : ParquetStore → Type 0 = λ t. I t × Q t.files t.config in
      let R : ParquetStore → Type 0 =
        λ t. Q t.files t.config × (contains_text dir t.sidecars_written ≡ true) in
      let path = join dir (sidecar_filename s.session) in
      if-Ends I R (contains_text dir s.sidecars_written) _ _ (λ e. (i, (q, e)))
        λ _.
          next-Ends I P R _ _ (attempt-Ends c D I P serialize_session serialize_failed d s i (i, q))
            λ _ d' s' i' q'.
              next-Ends I P R _ _
                (attempt-Ends c D I P (write_sidecar path) (sidecar_failed path) d' s' i' q')
                λ _ d'' s'' i'' q''.
                  (IsStore-sidecar c dir s'' i'', (q''.1, rw (text_eq_refl dir) refl))

  pub open_file-IsStore :
      (channel : Channel) (at : ℤ) (d : D.State) (s : ParquetStore)
      → IsStore c s
      → Absent (channel, partition_key c at) s.files
      → Ends (IsStore c) (λ t. Unit) (open_file D c channel (partition_key c at) at (d, s))
  unfolding open_file
  open_file-IsStore channel at d s i absent =
      let I = IsStore c in
      let U : ParquetStore → Type 0 = λ t. Unit in
      let partition = partition_key c at in
      let dir = partition_dir c s.config.root channel at in
      let path = file_path c s channel at in
      let Q : Files → WriterConfig → Type 0 =
        λ fs config. Absent (channel, partition) fs × (config.root ≡ s.config.root) in
      let P : ParquetStore → Type 0 = λ t. I t × Q t.files t.config in
      let R : ParquetStore → Type 0 =
        λ t. I t × (Q t.files t.config × (contains_text dir t.sidecars_written ≡ true)) in
      next-Ends I P U _ _
        (attempt-Ends c D I P (create_dir dir) (create_dir_failed dir) d s i (i, (absent, refl)))
        λ _ d1 s1 i1 q1.
          next-Ends I (λ t. Q t.files t.config × (contains_text dir t.sidecars_written ≡ true)) U _
            _ (ensure_sidecar-Ends Q dir d1 s1 i1 q1.1)
            λ _ d2 s2 i2 q2.
              next-Ends I R U _ _
                (attempt-Ends c D I R (create_file path) (open_failed path) d2 s2 i2 (i2, q2))
                λ _ d3 s3 i3 q3.
                  next-Ends I R U _ _
                    (attempt-Ends c D I R (start_writer path) (parquet_failed path) d3 s3 i3 q3)
                    λ _ d4 s4 i4 (_, ((a, root), m)). (
                      ((a, i4.0), (((refl, (refl, rw (root) m)), i4.1.0), omega (arith, i4.1.1))),
                      tt,
                    )

  pub open_absent-IsStore :
      (channel : Channel) (at : ℤ) (o : Option OpenFile) (d : D.State) (s : ParquetStore)
      → IsStore c s
      → get_file (channel, partition_key c at) s.files ≡ o
      → Ends (IsStore c) (λ t. Unit) (open_absent D c channel (partition_key c at) at o (d, s))
  unfolding open_absent
  open_absent-IsStore channel at none d s i e =
      open_file-IsStore channel at d s i (get_none-Absent (channel, partition_key c at) s.files e)
  open_absent-IsStore channel at (some f) d s i e = (i, tt)

  pub write_batch-IsStore :
      (channel : Channel) (rows bytes : ℕ) (at : ℤ) (d : D.State) (s : ParquetStore)
      → IsStore c s
      → Ends (IsStore c) (λ t. Unit) (write_batch D c channel rows bytes at (d, s))
  unfolding write_batch close_file append_batch ensure_open
  write_batch-IsStore channel rows bytes at d s i =
      let I = IsStore c in
      let U : ParquetStore → Type 0 = λ t. Unit in
      let k : Key = (channel, partition_key c at) in
      next-Ends I U U _ _
        (if-Ends I U (should_roll s k at) _ _
          (λ _. close_found-IsStore c D k (get_file k s.files) d s i) λ _. (i, tt))
        λ _ d1 s1 i1 _.
          next-Ends I U U _ _ (open_absent-IsStore channel at (get_file k s1.files) d1 s1 i1 refl)
            λ _ d2 s2 i2 _. append_found-IsStore c D k rows bytes (get_file k s2.files) d2 s2 i2
