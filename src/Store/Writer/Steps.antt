-- ===== src/Store/Writer/Steps.antt =====
-- The operations of crates/store/src/writer.rs that call the disk. The encoder of `write_records` is an
-- argument that gives a batch or fails; where crates/store/src/encode.rs panics the program ends, and
-- Store.Recording is about records for which it does not.
use kalshi_alpha.Prelude.{
  ℕ, ◌+◌, Option, none, some, List, [], ◌∷◌, map, if◌then◌else◌, length, Result, ok, err, ℤ, ◌-ℤ◌,
  leb_ℤ,
}
use kalshi_alpha.Prelude.Text.{Text}
use kalshi_alpha.Store.Channel.{Channel}
use kalshi_alpha.Store.Session.{Calendar, SessionMetadata, close_session, sidecar_filename}
use kalshi_alpha.Store.Disk.{
  Disk, Call, create_dir, serialize_session, write_sidecar, create_file, start_writer, append,
  write_footer,
}
use kalshi_alpha.Store.Writer.{
  WriteError, create_dir_failed, open_failed, sidecar_failed, parquet_failed, serialize_failed,
  encode_failed, WriterConfig, OpenFile, Key, Files, get_file, remove_file, update_file,
  contains_text, ParquetStore, partition_key, join, partition_dir, file_path, should_roll,
}

-- The `?` operator on steps that change the world.
abbrev pub next : {W E A B : Type 0} → W × Result E A → (A → W → W × Result E B) → W × Result E B
next (w, ok a) f = f a w
next (w, err e) f = (w, err e)

module _ (D : Disk) (c : Calendar) where
  -- The state of the disk, and the store.
  abbrev pub World : Type 0
  World = D.State × ParquetStore

  abbrev pub Outcome : Type 0 → Type 0
  Outcome A = World × Result WriteError A

  -- A call that fails with the error.
  abbrev pub attempt : Call → WriteError → World → Outcome Unit
  attempt call e (d, s) =
      let (d', success) = D.perform d call in ((d', s), if success then ok tt else err e)

  unfoldable pub ensure_sidecar : Text → World → Outcome Unit
  ensure_sidecar dir (d, s) =
      if contains_text dir s.sidecars_written
      then ((d, s), ok tt)
      else next (attempt serialize_session serialize_failed (d, s)) λ _ w.
        let path = join dir (sidecar_filename s.session) in
        next (attempt (write_sidecar path) (sidecar_failed path) w)
          λ _ (d', s'). ((d', record s' { sidecars_written = dir ∷ s'.sidecars_written }), ok tt)

  unfoldable pub open_file : Channel → Text → ℤ → World → Outcome Unit
  unfolding ensure_sidecar
  open_file channel partition at (d, s) =
      let dir = partition_dir c s.config.root channel at in
      let path = file_path c s channel at in
      next (attempt (create_dir dir) (create_dir_failed dir) (d, s)) λ _ w.
        next (ensure_sidecar dir w) λ _ w'.
          next (attempt (create_file path) (open_failed path) w') λ _ w''.
            next (attempt (start_writer path) (parquet_failed path) w'') λ _ (d', s').
              let file : OpenFile = record {
                path = path;
                opened_at = at;
                bytes = 0;
                rows = 0;
                partition_date = partition;
              } in
              ((d', record s' { files = ((channel, partition), file) ∷ s'.files }), ok tt)

  -- The file leaves the store before its footer is written, also where that fails.
  abbrev pub close_found : Key → Option OpenFile → World → Outcome Unit
  close_found k none w = (w, ok tt)
  close_found k (some f) (d, s) =
      next
        (attempt (write_footer f.path) (parquet_failed f.path)
          (d, record s { files = remove_file k s.files }))
        λ _ (d', s'). ((d', record s' { files_closed = s'.files_closed + 1 }), ok tt)

  unfoldable pub close_file : Key → World → Outcome Unit
  close_file k (d, s) = close_found k (get_file k s.files) (d, s)

  -- The end of `write_batch`: the batch goes to the open file.
  abbrev pub append_found : Key → ℕ → ℕ → Option OpenFile → World → Outcome Unit
  append_found k rows bytes none w = (w, ok tt)
  append_found k rows bytes (some f) (d, s) =
      next (attempt (append f.path rows) (parquet_failed f.path) (d, s)) λ _ (d', s'). (
        (
          d',
          record s' {
            files =
                update_file k (λ g. record g { rows = g.rows + rows; bytes = g.bytes + bytes })
                  s'.files;
            rows_written = s'.rows_written + rows;
            bytes_written = s'.bytes_written + bytes;
          },
        ),
        ok tt,
      )

  unfoldable pub append_batch : Key → ℕ → ℕ → World → Outcome Unit
  append_batch k rows bytes (d, s) = append_found k rows bytes (get_file k s.files) (d, s)

  -- A file is opened unless the key has one.
  unfoldable pub open_absent : Channel → Text → ℤ → Option OpenFile → World → Outcome Unit
  unfolding open_file
  open_absent channel partition at none w = open_file channel partition at w
  open_absent channel partition at (some f) w = (w, ok tt)

  unfoldable pub ensure_open : Channel → Text → ℤ → World → Outcome Unit
  unfolding open_absent
  ensure_open channel partition at (d, s) =
      open_absent channel partition at (get_file (channel, partition) s.files) (d, s)

  -- A batch is its number of rows and its size in memory.
  unfoldable pub write_batch : Channel → ℕ → ℕ → ℤ → World → Outcome Unit
  unfolding should_roll close_file ensure_open append_batch
  write_batch channel rows bytes at (d, s) =
      let partition = partition_key c at in
      let k : Key = (channel, partition) in
      let rolled : Outcome Unit =
        if should_roll s k at then close_file k (d, s) else ((d, s), ok tt) in
      next rolled
        λ _ w. next (ensure_open channel partition at w) λ _ w'. append_batch k rows bytes w'

  -- The files that are due, by age alone.
  unfoldable pub due : WriterConfig → ℤ → Files → List Key
  due config now [] = []
  due config now ((k, f) ∷ fs) =
      let rest = due config now fs in
      if leb_ℤ config.max_file_age (now -ℤ f.opened_at) then k ∷ rest else rest

  -- Each file in turn, up to the first failure.
  unfoldable pub close_each : List Key → World → Outcome Unit
  unfolding close_file
  close_each [] w = (w, ok tt)
  close_each (k ∷ ks) w = next (close_file k w) λ _ w'. close_each ks w'

  unfoldable pub roll_due_files : ℤ → World → Outcome ℕ
  unfolding due close_each
  roll_due_files now (d, s) =
      let keys = due s.config now s.files in
      next (close_each keys (d, s)) λ _ w. (w, ok (length keys))

  -- `first_error.get_or_insert`
  abbrev pub first_error : Option WriteError → Result WriteError Unit → Option WriteError
  first_error (some e) r = some e
  first_error none (ok _) = none
  first_error none (err e) = some e

  -- Every file in turn, past failures, with the first error.
  unfoldable pub close_every : List Key → Option WriteError → World → World × Option WriteError
  unfolding close_file
  close_every [] e w = (w, e)
  close_every (k ∷ ks) e w = let (w', r) = close_file k w in close_every ks (first_error e r) w'

  -- The sidecars get the end of the session; a failure is only logged.
  unfoldable pub rewrite_sidecars : List Text → D.State → SessionMetadata → D.State
  rewrite_sidecars [] d session = d
  rewrite_sidecars (dir ∷ dirs) d session =
      let (d', success) = D.perform d serialize_session in
      let d'' =
        if success
        then (D.perform d' (write_sidecar (join dir (sidecar_filename session)))).0
        else d' in
      rewrite_sidecars dirs d'' session

  unfoldable pub close_all : ℤ → World → Outcome Unit
  unfolding close_every rewrite_sidecars
  close_all ended_at (d, s) =
      let s' = record s { session = close_session s.session ended_at } in
      let ((d', s''), e) = close_every (map (λ kf. kf.0) s'.files) none (d, s') in
      (
        (rewrite_sidecars s''.sidecars_written d' s''.session, s''),
        elim e [ none ↦ ok tt | some x ↦ err x ],
      )

  -- The end of `write_records`: what the encoder answered goes to disk.
  abbrev pub write_encoded : Channel → ℤ → Result Unit (Option (ℕ × ℕ)) → World → Outcome ℕ
  write_encoded channel at (err _) w = (w, err encode_failed)
  write_encoded channel at (ok none) w = (w, ok 0)
  write_encoded channel at (ok (some (rows, bytes))) w =
      next (write_batch channel rows bytes at w) λ _ w'. (w', ok rows)

  module _ {R : Type 0} (expected_rows : Channel → List R → ℕ)
      (encode : Channel → Text → List R → Result Unit (Option (ℕ × ℕ))) where
    -- `write_records`, over the encoder: it answers with the rows and the size of a batch, with
    -- nothing, or with an error.
    unfoldable pub write_records : Channel → List R → ℤ → World → Outcome ℕ
    unfolding write_batch
    write_records channel [] at w = (w, ok 0)
    write_records channel (r ∷ rs) at (d, s) =
        let s' : ParquetStore = record s {
          records_dequeued = s.records_dequeued + length (r ∷ rs);
          rows_expected = s.rows_expected + expected_rows channel (r ∷ rs);
        } in
        write_encoded channel at (encode channel s.session.session_id (r ∷ rs)) (d, s')

-- `ParquetStore::open`
unfoldable pub open_store :
    (D : Disk) → WriterConfig → SessionMetadata → D.State → D.State × Result WriteError ParquetStore
open_store D config session d =
    let (d', success) = D.perform d (create_dir config.root) in
    (
      d',
      if success
          then ok (record {
            config = config;
            session = session;
            files = [];
            sidecars_written = [];
            files_closed = 0;
            rows_written = 0;
            bytes_written = 0;
            records_dequeued = 0;
            rows_expected = 0;
          })
          else err (create_dir_failed config.root),
    )
