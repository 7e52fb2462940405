-- ===== src/Store/Disk.antt =====
-- What the writer asks of the file system, of `serde_json` and of the Parquet library: calls that
-- succeed or fail, in a state of their own. It is a parameter of the writer.
use kalshi_alpha.Prelude.{ℕ, Bool}
use kalshi_alpha.Prelude.Text.{Text}

pub data Call : Type 0 where
  create_dir : (dir : Text) → Call
  serialize_session : Call
  write_sidecar : (path : Text) → Call
  create_file : (path : Text) → Call
  start_writer : (path : Text) → Call
  append : (path : Text) (rows : ℕ) → Call
  write_footer : (path : Text) → Call

-- `perform` answers whether the call succeeded.
pub record Disk : Type 1 where
  pub State : Type 0
  pub perform : State → Call → State × Bool
