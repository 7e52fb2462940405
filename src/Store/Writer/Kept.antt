-- ===== src/Store/Writer/Kept.antt =====
-- What the writer of crates/store/src/writer.rs has on disk, whatever calls fail.
use kalshi_alpha.Prelude.{ℕ, ◌+◌, ◌≡◌, List, [], ◌∷◌, arith, All, Result, ok, err, ℤ, Option}
use kalshi_alpha.Prelude.Text.{Text}
use kalshi_alpha.Store.Channel.{Channel}
use kalshi_alpha.Store.Session.{Calendar}
use kalshi_alpha.Store.Disk.{Disk}
use kalshi_alpha.Store.Writer.{WriteError, Files, Key, ParquetStore, partition_key, partition_dir}
use kalshi_alpha.Store.Writer.Steps.{write_batch, write_records}
use kalshi_alpha.Store.Writer.Files.{IsKeyed}
use kalshi_alpha.Store.Writer.Invariant.{IsStore}
use kalshi_alpha.Store.Writer.Accounts.{Exits, Counted, HasBatch}
use kalshi_alpha.Store.Writer.Records.{Settled, write_batch_lem}
use kalshi_alpha.Store.Writer.Logged.{
  Log, logged, appended, HasSidecar, Runs, LoggedWorld, IsLogged, Took, write_batch-Runs,
  write_encoded-Runs,
}

module _ (c : Calendar) (D : Disk) where
  -- What the disk has done for a store: the sidecar of the directory of each open file was written,
  -- and the rows that the store counts are those that the disk has taken.
  pub record IsKept (w : LoggedWorld c D) : Type 0 where
    pub store : IsStore c w.1
    pub sidecars :
        All
          (λ kf.
            HasSidecar w.1.session w.0.1 (partition_dir c w.1.config.root kf.0.0 kf.1.opened_at))
          w.1.files
    pub counted : w.1.rows_written ≡ appended w.0.1

  module _ {R : Type 0} (expected_rows : Channel → List R → ℕ)
      (encode : Channel → Text → List R → Result Unit (Option (ℕ × ℕ))) where
    pub write_records-Runs :
        (channel : Channel) (records : List R) (at : ℤ) (w : LoggedWorld c D)
        → IsLogged c D 0 w
        → Runs
            (IsLogged c D 0)
            (IsLogged c D 0)
            (write_records (logged D) c expected_rows encode channel records at w)
    unfolding write_records
    write_records-Runs channel [] at w i = i
    write_records-Runs channel (r ∷ rs) at (d, s) i =
        write_encoded-Runs c D channel at (encode channel s.session.session_id (r ∷ rs)) _ i

    abbrev Opened : (D.State × Log) × Result WriteError ParquetStore → Type 0
    Opened (d, err e) = Unit
    Opened (d, ok s) = IsLogged c D 0 (d, s)

  -- What the store says and what the disk has done, of one run.
  joined :
      {A : Type 0} (E Q : ParquetStore → Type 0) (E' Q' E'' Q'' : LoggedWorld c D → Type 0)
      (r : LoggedWorld c D × Result WriteError A)
      → Exits E Q r
      → Runs E' Q' r
      → ((v : LoggedWorld c D) → E v.1 → E' v → E'' v)
      → ((v : LoggedWorld c D) → Q v.1 → Q' v → Q'' v)
      → Runs E'' Q'' r
  joined E Q E' Q' E'' Q'' ((d, s), ok a) h k f g = g (d, s) h k
  joined E Q E' Q' E'' Q'' ((d, s), err e) h k f g = f (d, s) h k

  -- When each key has one open file and the store counts the rows that the disk has taken, a
  -- `write_batch` that succeeds leaves an open file for the channel and the UTC date of the instant
  -- that has at least the rows of the batch and is younger than the roll age or opened at the instant;
  -- the disk has taken the rows of the batch, for the path of that file, and they are counted. One that
  -- fails counts no row, and the disk has taken none.
  pub write_batch_kept :
      (channel : Channel) (rows bytes : ℕ) (at : ℤ) (d : D.State) (log : Log) (s : ParquetStore)
      → IsKeyed s.files
      → IsLogged c D 0 ((d, log), s)
      → Runs
          (λ v.
            Counted s.rows_written s.rows_expected s.records_dequeued v.1
            × (appended v.0.1 ≡ appended log))
          (λ v.
            HasBatch c
              (logged D)
              s.rows_written
              s.rows_expected
              s.records_dequeued
              at
              (channel, partition_key c at)
              rows
              v.1
            × (Took c D (channel, partition_key c at) rows v
                × (appended v.0.1 ≡ appended log + rows)))
          (write_batch (logged D) c channel rows bytes at ((d, log), s))
  write_batch_kept channel rows bytes at d log s keyed i =
      let k : Key = (channel, partition_key c at) in
      joined (Counted s.rows_written s.rows_expected s.records_dequeued)
        (HasBatch c (logged D) s.rows_written s.rows_expected s.records_dequeued at k rows)
        (IsLogged c D 0) (λ v. IsLogged c D 0 v × Took c D k rows v)
        (λ v.
          Counted s.rows_written s.rows_expected s.records_dequeued v.1
          × (appended v.0.1 ≡ appended log))
        (λ v.
          HasBatch c (logged D) s.rows_written s.rows_expected s.records_dequeued at k rows v.1
          × (Took c D k rows v × (appended v.0.1 ≡ appended log + rows)))
        (write_batch (logged D) c channel rows bytes at ((d, log), s))
        (write_batch_lem c (logged D) channel rows bytes at (d, log) s keyed)
        (write_batch-Runs c D channel rows bytes at ((d, log), s) i)
        (λ v h j. (h, omega (arith, h.0, j.0, i.0)))
        (λ v h (j, took). (h, (took, omega (arith, h.0.0, j.0, i.0))))

  -- The rows that the disk takes in a `write_records`: all, or none where it fails.
  abbrev pub Taken : Log → ℕ → LoggedWorld c D × Result WriteError ℕ → Type 0
  Taken log n (v, ok k) = appended v.0.1 ≡ appended log + n
  Taken log n (v, err e) = appended v.0.1 ≡ appended log

  pub Settled-Taken :
      (log : Log) (w x r n m : ℕ) (q : LoggedWorld c D × Result WriteError ℕ)
      → w ≡ appended log
      → Settled w x r n m q
      → Runs (IsLogged c D 0) (IsLogged c D 0) q
      → Taken log n q
  Settled-Taken log w x r n m ((d, s), ok k) e h i = omega (arith, e, h.1.0, i.0)
  Settled-Taken log w x r n m ((d, s), err y) e h i = omega (arith, e, h.0, i.0)
