-- ===== src/Store/Writer/Records.antt =====
-- `write_batch` and `write_records` of crates/store/src/writer.rs: what they report is what the counters say.
use kalshi_alpha.Prelude.{
  ℕ, ◌+◌, ◌≡◌, refl, sym, ◌∙◌, Option, none, some, List, ◌∷◌, arith, length, Result, ok, err, ℤ,
}
use kalshi_alpha.Prelude.Text.{Text}
use kalshi_alpha.Store.Channel.{Channel}
use kalshi_alpha.Store.Session.{Calendar}
use kalshi_alpha.Store.Disk.{Disk}
use kalshi_alpha.Store.Writer.{WriteError, ParquetStore, partition_key}
use kalshi_alpha.Store.Writer.Steps.{next, write_batch, write_encoded, write_records}
use kalshi_alpha.Store.Writer.Files.{IsKeyed}
use kalshi_alpha.Store.Writer.Accounts.{Counted, Exits, HasBatch, BatchFile, write_batch-HasBatch}

-- The encoder's answer has as many rows as were expected; an error is its own matter.
abbrev pub Agrees : ℕ → Result Unit (Option (ℕ × ℕ)) → Type 0
Agrees n (err _) = Unit
Agrees n (ok none) = n ≡ 0
Agrees n (ok (some (rows, bytes))) = n ≡ rows

-- What `write_records` answers when it found the counters at `w`, `x` and `r`, `n` rows were
-- expected and `m` records were given.
abbrev pub Settled :
    {W : Type 0} → (w x r n m : ℕ) → (W × ParquetStore) × Result WriteError ℕ → Type 0
Settled w x r n m ((d, s), ok k) = (k ≡ n) × Counted (w + n) (x + n) (r + m) s
Settled w x r n m ((d, s), err e) = Counted w (x + n) (r + m) s

next-Settled :
    {W : Type 0} (w x r n m : ℕ) (q : (W × ParquetStore) × Result WriteError Unit) (k : ℕ)
    (Q : ParquetStore → Type 0)
    → k ≡ n
    → Exits (Counted w (x + n) (r + m)) (λ t. Counted (w + k) (x + n) (r + m) t × Q t) q
    → Settled w x r n m (next q λ _ w'. (w', ok k))
next-Settled w x r n m ((d, s), ok _) k Q e h = (e, rw e at (h.0))
next-Settled w x r n m ((d, s), err _) k Q e h = h

module _ (c : Calendar) (D : Disk) where
  -- When each key has one open file, a `write_batch` that succeeds leaves an open file for the
  -- channel and the UTC date of the instant, with the rows of the batch, not older than the roll
  -- age or opened at the instant, and counts the rows; one that fails counts none.
  pub write_batch_lem :
      (channel : Channel) (rows bytes : ℕ) (at : ℤ) (d : D.State) (s : ParquetStore)
      → IsKeyed s.files
      → Exits
          (Counted s.rows_written s.rows_expected s.records_dequeued)
          (HasBatch c D s.rows_written s.rows_expected s.records_dequeued at
            (channel, partition_key c at)
            rows)
          (write_batch D c channel rows bytes at (d, s))
  write_batch_lem channel rows bytes at d s h =
      write_batch-HasBatch c D s.rows_written s.rows_expected s.records_dequeued at channel rows
        bytes d s h (refl, (refl, refl))

  write_encoded-Settled :
      (channel : Channel) (at : ℤ) (a : Result Unit (Option (ℕ × ℕ))) (w x r n m : ℕ) (d : D.State)
      (s : ParquetStore)
      → IsKeyed s.files
      → Agrees n a
      → Counted w (x + n) (r + m) s
      → Settled w x r n m (write_encoded D c channel at a (d, s))
  write_encoded-Settled channel at (err _) w x r n m d s h g i = i
  write_encoded-Settled channel at (ok none) w x r n m d s h g i =
      (sym g, (i.0 ∙ omega (arith, g), i.1))
  write_encoded-Settled channel at (ok (some (rows, bytes))) w x r n m d s h g i =
      next-Settled w x r n m (write_batch D c channel rows bytes at (d, s)) rows
        (BatchFile c D w (x + n) (r + m) at (channel, partition_key c at) rows) (sym g)
        (write_batch-HasBatch c D w (x + n) (r + m) at channel rows bytes d s h i)

  module _ {R : Type 0} (expected_rows : Channel → List R → ℕ)
      (encode : Channel → Text → List R → Result Unit (Option (ℕ × ℕ))) where
    -- When each key has one open file and the encoder gives a batch of the expected rows or fails,
    -- `write_records` of some records counts them as dequeued and their rows as expected; it
    -- answers with the number of those rows and counts them as written, or fails and counts none
    -- of them as written.
    pub write_records_lem :
        (channel : Channel) (record_1 : R) (records : List R) (at : ℤ) (d : D.State)
        (s : ParquetStore)
        → IsKeyed s.files
        → Agrees
            (expected_rows channel (record_1 ∷ records))
            (encode channel s.session.session_id (record_1 ∷ records))
        → Settled s.rows_written s.rows_expected s.records_dequeued
            (expected_rows channel (record_1 ∷ records))
            (length (record_1 ∷ records))
            (write_records D c expected_rows encode channel (record_1 ∷ records) at (d, s))
    unfolding write_records
    write_records_lem channel r rs at d s h g =
        write_encoded-Settled channel at (encode channel s.session.session_id (r ∷ rs))
          s.rows_written s.rows_expected s.records_dequeued _ _ d _ h g (refl, (refl, refl))
