-- ===== src/Store/Writer.antt =====
-- crates/store/src/writer.rs: Parquet files that roll by size and age, in a directory for each channel
-- and UTC date. A call of the file system or of the Parquet library is a call of a `Disk`, which may
-- fail; a failed step keeps what was done before it. A method takes the state of the disk and the store
-- and returns both with its result. A `HashMap` is the list of its entries. Byte and row counters are
-- unbounded numbers.
pub mod Steps
pub mod Files
pub mod Invariant
pub mod Opening
pub mod Runs
pub mod Examples
pub mod Closing
pub mod Accounts
pub mod Records
pub mod Logged
pub mod Kept
use kalshi_alpha.Prelude.{
  ℕ, ◌+◌, ◌-◌, ◌^◌, Bool, true, false, ◌&&◌, ◌||◌, Option, none, some, List, [], ◌∷◌, ◌++◌, map,
  leb, ltb, ◌==◌, if◌then◌else◌, length, Result, ok, err, ℤ, pos, ◌-ℤ◌, leb_ℤ, not,
}
use kalshi_alpha.Prelude.Text.{Text, codes, text_eq}
use kalshi_alpha.Common.Parse.{padded}
use kalshi_alpha.Store.Channel.{Channel, channel_str, eq_channel}
use kalshi_alpha.Store.Session.{Calendar, SessionMetadata, close_session, sidecar_filename}
use kalshi_alpha.Store.Disk.{
  Disk, Call, create_dir, serialize_session, write_sidecar, create_file, start_writer, append,
  write_footer,
}

pub data WriteError : Type 0 where
  create_dir_failed open_failed sidecar_failed parquet_failed : (path : Text) → WriteError
  serialize_failed encode_failed : WriteError

pub record WriterConfig : Type 0 where
  pub root : Text
  pub max_file_bytes : ℕ
  pub max_file_age : ℤ
  pub max_batch_rows : ℕ

-- `WriterConfig::new`; the compression is a matter of the Parquet library.
abbrev pub default_config : Text → WriterConfig
default_config root = record {
  root = root;
  max_file_bytes = 134_217_728;
  max_file_age = pos 300_000_000_000;
  max_batch_rows = 10_000;
}

pub record OpenFile : Type 0 where
  pub path : Text
  pub opened_at : ℤ
  pub bytes : ℕ
  pub rows : ℕ
  pub partition_date : Text

abbrev pub Key : Type 0
Key = Channel × Text

abbrev pub eq_key : Key → Key → Bool
eq_key k j = eq_channel k.0 j.0 && text_eq k.1 j.1

abbrev pub Files : Type 0
Files = List (Key × OpenFile)

-- `HashMap` by channel and date: `insert` of a key that is not there, `get`, `remove`.
unfoldable pub get_file : Key → Files → Option OpenFile
get_file k [] = none
get_file k ((j, f) ∷ fs) = if eq_key j k then some f else get_file k fs

unfoldable pub remove_file : Key → Files → Files
remove_file k [] = []
remove_file k ((j, f) ∷ fs) =
    let rest = remove_file k fs in if eq_key j k then fs else (j, f) ∷ rest

-- The change that `get_mut` allows.
unfoldable pub update_file : Key → (OpenFile → OpenFile) → Files → Files
update_file k g [] = []
update_file k g ((j, f) ∷ fs) =
    let rest = update_file k g fs in if eq_key j k then (j, g f) ∷ fs else (j, f) ∷ rest

unfoldable pub contains_text : Text → List Text → Bool
contains_text t [] = false
contains_text t (s ∷ ss) = text_eq s t || contains_text t ss

pub record ParquetStore : Type 0 where
  pub config : WriterConfig
  pub session : SessionMetadata
  pub files : Files
  pub sidecars_written : List Text
  pub files_closed : ℕ
  pub rows_written : ℕ
  pub bytes_written : ℕ
  pub records_dequeued : ℕ
  pub rows_expected : ℕ

pub record StoreStats : Type 0 where
  pub open_files : ℕ
  pub files_closed : ℕ
  pub rows_written : ℕ
  pub bytes_written : ℕ
  pub records_dequeued : ℕ
  pub rows_expected : ℕ

unfoldable pub stats : ParquetStore → StoreStats
stats s = record {
  open_files = length s.files;
  files_closed = s.files_closed;
  rows_written = s.rows_written;
  bytes_written = s.bytes_written;
  records_dequeued = s.records_dequeued;
  rows_expected = s.rows_expected;
}

-- `i64::try_from(n).unwrap_or(i64::MAX)`
abbrev pub clamp_i64 : ℕ → ℕ
clamp_i64 n = if ltb n (2 ^ 63) then n else 2 ^ 63 - 1

unfoldable pub rows_lost : StoreStats → ℤ
unfolding ◌-ℤ◌
rows_lost s = pos (clamp_i64 s.rows_expected) -ℤ pos (clamp_i64 s.rows_written)

-- A date as `YYYY-MM-DD`.
unfoldable pub partition_key : Calendar → ℤ → Text
unfolding padded
partition_key c at =
    padded 4 (c.year at) ++ (b'-' ∷ (padded 2 (c.month at) ++ (b'-' ∷ padded 2 (c.day at))))

-- `Path::join`
abbrev pub join : Text → Text → Text
join dir name = dir ++ (b'/' ∷ name)

unfoldable pub partition_dir : Calendar → Text → Channel → ℤ → Text
unfolding partition_key
partition_dir c root channel at =
    join (join root (channel_str channel)) (codes "date=" ++ partition_key c at)

unfoldable pub file_path : Calendar → ParquetStore → Channel → ℤ → Text
unfolding partition_dir
file_path c s channel at = join (partition_dir c s.config.root channel at) (
    channel_str channel
    ++ (b'-' ∷ (c.stamp_millis at ++ (b'-' ∷ (s.session.session_id ++ codes ".parquet")))))

-- A file is due when a batch for its key comes.
abbrev pub is_due_found : WriterConfig → Key → ℤ → Option OpenFile → Bool
is_due_found config k at none = false
is_due_found config k at (some f) =
    if not (text_eq f.partition_date k.1)
    then true
    else if leb config.max_file_bytes f.bytes
    then true
    else leb_ℤ config.max_file_age (at -ℤ f.opened_at)

unfoldable pub should_roll : ParquetStore → Key → ℤ → Bool
should_roll s k at = is_due_found s.config k at (get_file k s.files)
