-- ===== src/Store/Recording.antt =====
-- The writer of crates/store/src/writer.rs with the encoder of crates/store/src/encode.rs.
pub mod Examples
use kalshi_alpha.Prelude.{
  ℕ, ◌≡◌, refl, Bool, true, Option, none, some, List, [], ◌∷◌, length, All, Result, ok, err, ℤ,
  Exec, done, panics, subst, sym, arith,
}
use kalshi_alpha.Prelude.Text.{Text}
use kalshi_alpha.Store.Channel.{Channel}
use kalshi_alpha.Store.Schema.{Field}
use kalshi_alpha.Store.Session.{Calendar}
use kalshi_alpha.Store.Disk.{Disk}
use kalshi_alpha.Store.Json.{Json}
use kalshi_alpha.Store.Encode.{Row, StoreRecord}
use kalshi_alpha.Store.Encode.Batches.{EncodeError, expected_rows, encode}
use kalshi_alpha.Store.Encode.Conforming.{Conforms}
use kalshi_alpha.Store.Encode.Complete.{Ready, encode_lem}
use kalshi_alpha.Store.Writer.{ParquetStore}
use kalshi_alpha.Store.Writer.Steps.{write_records}
use kalshi_alpha.Store.Writer.Files.{IsKeyed}
use kalshi_alpha.Store.Writer.Records.{Agrees, Settled, write_records_lem}
use kalshi_alpha.Store.Writer.Logged.{Log, logged, IsLogged}
use kalshi_alpha.Store.Writer.Kept.{Taken, write_records-Runs, Settled-Taken}

-- What the writer learns of a batch: its rows and its size in memory. A panic ends the program, so
-- what stands for it here does not matter where none is reached.
abbrev pub learned :
    (List Row → ℕ) → Exec (Result EncodeError (Option (List Row))) → Result Unit (Option (ℕ × ℕ))
learned size panics = err tt
learned size (done (err e)) = err tt
learned size (done (ok none)) = ok none
learned size (done (ok (some rows))) = ok (some (length rows, size rows))

module _ (json : Json) (accepts : List Field → List Row → Bool) (size : List Row → ℕ)
    (accepts_rows : (fs : List Field) (rows : List Row)
      → All (Conforms fs) rows
      → accepts fs rows ≡ true)
    (c : Calendar) (D : Disk) where
  abbrev pub encoder : Channel → Text → List (StoreRecord json) → Result Unit (Option (ℕ × ℕ))
  encoder channel session_id records = learned size (encode json accepts channel session_id records)

  -- When each key has one open file, the store counts the rows that the disk has taken, Arrow accepts
  -- rows that fit a schema and the records are ready for their channel, `write_records` with the
  -- encoder answers with the number of rows that `expected_rows` counts, and the disk has taken so
  -- many more, or it fails and the disk has taken none; the rows that are taken are counted as
  -- written, and either way the records are counted as dequeued and the rows as expected.
  pub record_lem :
      (channel : Channel) (r : StoreRecord json) (rs : List (StoreRecord json)) (at : ℤ)
      (d : D.State) (log : Log) (s : ParquetStore)
      → IsKeyed s.files
      → IsLogged c D 0 ((d, log), s)
      → All (Ready json s.session.session_id channel) (r ∷ rs)
      → Settled s.rows_written s.rows_expected s.records_dequeued
          (expected_rows json channel (r ∷ rs))
          (length (r ∷ rs))
          (write_records
            (logged D)
            c
            (expected_rows json)
            encoder
            channel
            (r ∷ rs)
            at
            ((d, log), s))
        × Taken c D log (expected_rows json channel (r ∷ rs)) (
            write_records
              (logged D)
              c
              (expected_rows json)
              encoder
              channel
              (r ∷ rs)
              at
              ((d, log), s))
  record_lem channel r rs at d log s keyed i ready =
      let (rows, (e, (fits, n))) =
        encode_lem json s.session.session_id accepts accepts_rows channel r rs ready in
      let agrees : Agrees (expected_rows json channel (r ∷ rs))
          (learned size (done (ok (some rows)))) =
        sym n in
      let settled =
        write_records_lem c (logged D) (expected_rows json) encoder channel r rs at (d, log) s keyed
          (subst (λ x. Agrees (expected_rows json channel (r ∷ rs)) (learned size x)) (sym e)
            agrees) in
      (
        settled,
        Settled-Taken c D log s.rows_written s.rows_expected s.records_dequeued
            (expected_rows json channel (r ∷ rs)) (length (r ∷ rs))
            (write_records (logged D) c (expected_rows json) encoder channel (r ∷ rs) at
              ((d, log), s))
            (omega (arith, i.0)) settled
            (write_records-Runs c D (expected_rows json) encoder channel (r ∷ rs) at ((d, log), s)
              i),
      )
