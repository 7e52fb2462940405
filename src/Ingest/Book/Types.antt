-- ===== src/Ingest/Book/Types.antt =====
-- The data of crates/ingest/src/book.rs: the book, what its methods report, and their errors.
use kalshi_alpha.Prelude.{ℕ, Bool, true, false, Option, ◌∷◌}
use kalshi_alpha.Prelude.Text.{Text}
use kalshi_alpha.Common.Px.{Px, to_dollar_string}
use kalshi_alpha.Common.Ticker.{Ticker}
use kalshi_alpha.Common.Ranges.{PriceRanges}
use kalshi_alpha.Ingest.Book.Levels.{LevelMap}
use kalshi_alpha.Ingest.Book.Pricing.{Convention}

-- `price.to_string()`
abbrev pub show_px : Px → Text
show_px p = b'$' ∷ to_dollar_string p

pub data InvariantViolation : Type 0 where
  negative_quantity : (side price qty : Text) → InvariantViolation
  zero_quantity_level : (side price : Text) → InvariantViolation
  valid_without_sid valid_without_seq : InvariantViolation
  crossed : (bid ask : Text) → InvariantViolation

pub data BookError : Type 0 where
  unsorted_snapshot : (market side previous current : Text) → BookError
  duplicate_level : (market side price : Text) → BookError
  parse_failed : (market field value : Text) → BookError

pub data SnapshotContinuity : Type 0 where
  initial : SnapshotContinuity
  continues_stream : (previous snapshot : ℕ) → SnapshotContinuity
  restarts_stream : (previous snapshot : ℕ) → SnapshotContinuity

unfoldable pub restarted : SnapshotContinuity → Bool
restarted (restarts_stream previous snapshot) = true
restarted k = false

pub data DeltaOutcome : Type 0 where
  applied : DeltaOutcome
  gapped : (expected got : ℕ) → DeltaOutcome
  discarded_invalid : DeltaOutcome
  regression : (prior got : ℕ) → DeltaOutcome

pub record OrderBook (c : Convention) : Type 0 where
  pub market : Ticker
  pub sid : Option ℕ
  pub bids : LevelMap
  pub asks : LevelMap
  pub valid : Bool
  pub last_seq : Option ℕ
  pub grid : Option PriceRanges
  pub off_grid_observations : ℕ
  pub desync_invalidations : ℕ

-- A read-only view of a valid book.
pub record BookView : Type 0 where
  pub bids : LevelMap
  pub asks : LevelMap
