-- ===== src/Store/Writer/Examples.antt =====
-- Runs of the writer on a disk that counts its calls, and the cases of its theorems.
use kalshi_alpha.Prelude.{
  ℕ, ◌+◌, ◌≤◌, ◌≡◌, refl, Bool, true, false, Option, none, some, List, [], ◌∷◌, All, arith, length,
  Result, ok, err, ℤ, pos, ltb, leb, ◌==◌,
}
use kalshi_alpha.Prelude.Text.{Text, codes}
use kalshi_alpha.Store.Channel.{Channel, trade, ticker}
use kalshi_alpha.Store.Session.{Calendar, SessionMetadata, demo}
use kalshi_alpha.Store.Disk.{Disk, Call, create_dir, write_footer}
use kalshi_alpha.Store.Writer.{
  WriteError, WriterConfig, OpenFile, Key, ParquetStore, default_config, partition_key,
}
use kalshi_alpha.Store.Writer.Steps.{write_batch, roll_due_files, close_all}
use kalshi_alpha.Store.Writer.Logged.{LoggedWorld, logged, Runs, appended, Took}
use kalshi_alpha.Store.Writer.Kept.{write_batch_kept}
use kalshi_alpha.Store.Writer.Closing.{roll_due_files_lem, close_all_lem}
use kalshi_alpha.Store.Writer.Accounts.{Counted, HasBatch, Young}

-- A disk whose footers fail.
abbrev answers : Call → Bool
answers (create_dir dir) = true
answers (write_footer path) = false
answers _ = true

abbrev pub disk : Disk
disk = record { State = ℕ; perform = λ n call. (n + 1, answers call) }

abbrev pub good_disk : Disk
good_disk = record { State = ℕ; perform = λ n call. (n + 1, true) }

abbrev seconds : ℤ → ℕ
seconds (pos n) = n
seconds _ = 0

abbrev pub calendar : Calendar
calendar = record {
  year = λ at. 2026;
  month = λ at. 9;
  day = λ at. seconds at;
  stamp_seconds = λ at. codes "S";
  stamp_millis = λ at. codes "M";
  rfc3339 = λ at. codes "R";
}

abbrev session : SessionMetadata
session = record {
  session_id = codes "s";
  started_at = pos 0;
  ended_at = none;
  pricing_convention = codes "unilateral";
  parser_version = 1;
  px_scale = 4;
  qty_scale = 2;
  environment = demo;
  git_sha = codes "abc";
  docs_spec_date = codes "d";
  orderbook_shard_size = 100;
  channels = codes "trade" ∷ [];
  ws_url = codes "w";
}

abbrev pub empty_store : ParquetStore
empty_store = record {
  config = default_config (codes "data");
  session = session;
  files = [];
  sidecars_written = [];
  files_closed = 0;
  rows_written = 0;
  bytes_written = 0;
  records_dequeued = 0;
  rows_expected = 0;
}

-- One day later, a file of 600 seconds and a file of the day.
abbrev file_at : ℤ → OpenFile
file_at at = record {
  path = codes "p";
  opened_at = at;
  bytes = 10;
  rows = 2;
  partition_date = partition_key calendar at;
}

abbrev two_files : ParquetStore
two_files = record empty_store {
  files =
      ((trade, codes "2026-09-05"), file_at (pos 5))
      ∷ ((ticker, codes "2026-09-06"), file_at (pos 400_000_000_000))
      ∷ [];
  rows_written = 4;
}

abbrev logged_batch : LoggedWorld calendar good_disk × Result WriteError Unit
logged_batch = write_batch (logged good_disk) calendar trade 3 100 (pos 5) ((0, []), empty_store)

write_batch_kept_example :
    Runs
      (λ v. Counted 0 0 0 v.1 × (appended v.0.1 ≡ 0))
      (λ v.
        HasBatch calendar
          (logged good_disk)
          0
          0
          0
          (pos 5)
          (trade, partition_key calendar (pos 5))
          3
          v.1
        × (Took calendar good_disk (trade, partition_key calendar (pos 5)) 3 v
            × (appended v.0.1 ≡ 3)))
      logged_batch
write_batch_kept_example =
    write_batch_kept calendar good_disk trade 3 100 (pos 5) 0 [] empty_store tt (refl, tt)

roll_due_files_lem_example :
    All
      (λ kf. Young two_files.config (pos 500_000_000_000) kf.1)
      ((roll_due_files good_disk calendar (pos 500_000_000_000) (0, two_files)).0.1).files
unfolding roll_due_files kalshi_alpha.Prelude.◌-ℤ◌ kalshi_alpha.Store.Writer.get_file
    kalshi_alpha.Prelude.Text.text_eq
roll_due_files_lem_example =
    roll_due_files_lem calendar good_disk (pos 500_000_000_000) 0
      ((roll_due_files good_disk calendar (pos 500_000_000_000) (0, two_files)).0.0) two_files
      ((roll_due_files good_disk calendar (pos 500_000_000_000) (0, two_files)).0.1) 1
      ((refl, tt), (tt, tt)) refl

-- The footers fail.
close_all_lem_example : ((close_all disk calendar (pos 7) (0, two_files)).0.1).files ≡ []
close_all_lem_example = close_all_lem calendar disk (pos 7) 0 two_files ((refl, tt), (tt, tt))

abbrev count_rows : Channel → List ℕ → ℕ
count_rows channel rs = length rs

abbrev batch_of : Channel → Text → List ℕ → Result Unit (Option (ℕ × ℕ))
batch_of channel session_id rs = ok (some (length rs, 8))

abbrev made_root : List (Call × Bool)
made_root = (create_dir (codes "data"), true) ∷ []

abbrev after_batch : LoggedWorld calendar disk
after_batch =
    (write_batch (logged disk) calendar trade 3 100 (pos 5) ((1, made_root), empty_store)).0

abbrev after_close : LoggedWorld calendar disk
after_close = (close_all (logged disk) calendar (pos 7) after_batch).0
