-- ===== src/Ingest/Book.antt =====
-- crates/ingest/src/book.rs: the order book of one market. A method takes the book and returns the
-- new one; `Exec` says where the code panics: in `last + 1` at the greatest `u64`, in a grid with a
-- step of 0, and in `apply_delta`, whose body is `todo!()`. The counters of events are unbounded
-- numbers. Log lines are left out; they read the book and change nothing.
pub mod Levels
pub mod Types
pub mod Pricing
pub mod Ascending
pub mod Invariants
pub mod Snapshot
pub mod Gaps
pub mod Runs
pub mod AnyBook
pub mod View
pub mod Examples
use kalshi_alpha.Prelude.{
  ℕ, ◌+◌, ◌^◌, ◌-◌, ◌≡◌, Bool, true, false, Option, none, some, List, [], ◌∷◌, map, ltb, leb, ◌==◌,
  if◌then◌else◌, ◌&&◌, ◌||◌, Result, ok, err, ◌>>=◌, ◌>>◌, Exec, done, panics, and_then, length,
}
use kalshi_alpha.Prelude.Text.{Text, codes}
use kalshi_alpha.Common.Px.{
  Px, lt_px, le_px, eq_px, complement, checked_sub, midpoint, to_dollar_string,
}
use kalshi_alpha.Common.Qty.{Qty, is_zero, qty_is_negative, to_fp_string}
use kalshi_alpha.Common.Ticker.{Ticker, Side, yes_side, no_side}
use kalshi_alpha.Common.Ranges.{PriceRanges, is_valid}
use Levels.{Level, LevelMap, insert, first, final}
use Types.{
  InvariantViolation, negative_quantity, zero_quantity_level, valid_without_sid, valid_without_seq,
  crossed, BookError, unsorted_snapshot, duplicate_level, SnapshotContinuity, initial,
  continues_stream, restarts_stream, DeltaOutcome, applied, gapped, discarded_invalid, regression,
  OrderBook, BookView, show_px,
}
use Pricing.{Convention, no_leg, yes_leg, yes_ask_price_for, label}

abbrev pub is_empty_list {ℓ} : {A : Type ℓ} → List A → Bool
is_empty_list [] = true
is_empty_list (x ∷ xs) = false

-- `slice::windows(2)`
abbrev pub windows {ℓ} : {A : Type ℓ} → List A → List (A × A)
windows [] = []
windows (x ∷ []) = []
windows (x ∷ y ∷ xs) = (x, y) ∷ windows (y ∷ xs)

pub check_windows : Text → Text → List (Level × Level) → Result BookError Unit
check_windows market side [] = ok tt
check_windows market side (((previous, _), (current, _)) ∷ rest) =
    let later = check_windows market side rest in
    if eq_px current previous
    then err (duplicate_level market side (show_px previous))
    else if lt_px current previous
    then err (unsorted_snapshot market side (show_px previous) (show_px current))
    else later

pub continuity : Option ℕ → ℕ → SnapshotContinuity
continuity none seq = initial
continuity (some previous) seq =
    if ltb previous seq then continues_stream previous seq else restarts_stream previous seq

-- `+ 1` on `u64`.
abbrev pub next_u64 : ℕ → Exec ℕ
next_u64 n = if n == 2 ^ 64 - 1 then panics else done (n + 1)

-- The first level of a side with a size that is not positive.
pub check_levels : Text → LevelMap → Result InvariantViolation Unit
check_levels side [] = ok tt
check_levels side ((price, qty) ∷ rest) =
    let later = check_levels side rest in
    if qty_is_negative qty
    then err (negative_quantity side (show_px price) (to_fp_string qty))
    else if is_zero qty
    then err (zero_quantity_level side (show_px price))
    else later

pub check_crossed : Option Level → Option Level → Result InvariantViolation Unit
check_crossed none ask = ok tt
check_crossed (some bid) none = ok tt
check_crossed (some bid) (some ask) =
    if le_px ask.0 bid.0 then err (crossed (show_px bid.0) (show_px ask.0)) else ok tt

abbrev pub complement_level : Level → Level
complement_level (ask, qty) = (complement ask, qty)

module _ {c : Convention} where
  unfoldable pub levels : OrderBook c → Option BookView
  levels b = if b.valid then some (record { bids = b.bids; asks = b.asks }) else none

  unfoldable pub set_grid : OrderBook c → PriceRanges → OrderBook c
  set_grid b g = record b { grid = some g }

  unfoldable pub invalidate : OrderBook c → OrderBook c
  invalidate b = record b { valid = false }

  unfoldable pub invalidate_on_desync : OrderBook c → Side → Px → Qty → Qty → OrderBook c
  invalidate_on_desync b side price delta resting = record b {
    desync_invalidations = b.desync_invalidations + 1;
    valid = false;
  }

  pub assert_ascending : OrderBook c → List Level → Text → Result BookError Unit
  unfolding check_windows
  assert_ascending b ls side = check_windows b.market.text side (windows ls)

  abbrev pub count_off_grid : OrderBook c → Bool → OrderBook c
  count_off_grid b true = b
  count_off_grid b false = record b { off_grid_observations = b.off_grid_observations + 1 }

  pub note_grid : OrderBook c → Px → Exec (OrderBook c)
  note_grid b price = elim b.grid [
    | none ↦ done b
    | some grid ↦
        if is_empty_list grid.bands
        then done b
        else and_then (is_valid grid price) λ on_grid. done (count_off_grid b on_grid)
  ]

  -- The loops of `apply_snapshot`.
  pub load_bids : List Level → OrderBook c → Exec (OrderBook c)
  load_bids [] b = done b
  load_bids ((price, size) ∷ rest) b = and_then (note_grid b price) λ b'.
      load_bids rest (if is_zero size then b' else record b' { bids = insert price size b'.bids })

  pub load_asks : List Level → OrderBook c → Exec (OrderBook c)
  load_asks [] b = done b
  load_asks ((price, size) ∷ rest) b = and_then (note_grid b price) λ b'. load_asks rest (
      if is_zero size
      then b'
      else record b' { asks = insert (yes_ask_price_for c no_side price) size b'.asks })

  -- Both sides are sorted: the book is replaced.
  pub replace_levels : OrderBook c → ℕ → ℕ → List Level → List Level → Exec (OrderBook c)
  unfolding load_bids load_asks note_grid
  replace_levels b sid seq yes_levels no_levels =
      and_then (load_bids yes_levels (record b { bids = []; asks = [] })) λ b₁.
        and_then (load_asks no_levels b₁)
          λ b₂. done (record b₂ { sid = some sid; last_seq = some seq; valid = true })

  -- The book stays as it was where an error is returned.
  unfoldable pub apply_snapshot :
      OrderBook c
      → ℕ
      → ℕ
      → List Level
      → List Level
      → Exec (OrderBook c × Result BookError SnapshotContinuity)
  unfolding assert_ascending replace_levels continuity
  apply_snapshot b sid seq yes_levels no_levels =
      elim (assert_ascending b yes_levels (codes "yes")
        >> assert_ascending b no_levels (codes "no")) [
          | err e ↦ done (b, err e)
          | ok _ ↦
              and_then (replace_levels b sid seq yes_levels no_levels)
                λ b'. done (b', ok (continuity b.last_seq seq))
        ]

  unfoldable pub classify_seq : OrderBook c → ℕ → Exec DeltaOutcome
  classify_seq b seq =
      if b.valid
      then elim b.last_seq [
        | none ↦ done applied
        | some prior ↦ and_then (next_u64 prior) λ expected. done (
            if seq == expected
            then applied
            else if leb seq prior
            then regression prior seq
            else gapped expected seq)
      ]
      else done discarded_invalid

  -- `todo!()`
  pub apply_delta : OrderBook c → Side → Px → Qty → Exec (OrderBook c)
  apply_delta b side price delta = panics

  -- The reaction to a classified delta, over the function that applies a delta.
  pub react :
      (OrderBook c → Side → Px → Qty → Exec (OrderBook c))
      → OrderBook c
      → ℕ
      → Side
      → Px
      → Qty
      → DeltaOutcome
      → Exec (OrderBook c × DeltaOutcome)
  unfolding note_grid
  react apply b seq side price delta applied = and_then (note_grid b price) λ b₁.
      and_then (apply b₁ side price delta) λ b₂. done (record b₂ { last_seq = some seq }, applied)
  react apply b seq side price delta (gapped expected got) =
      done (record b { valid = false; last_seq = some seq }, gapped expected got)
  react apply b seq side price delta discarded_invalid = done (b, discarded_invalid)
  react apply b seq side price delta (regression prior got) = done (b, regression prior got)

  -- `receive_delta` over the function that applies a delta: the source has its own, `apply_delta`.
  pub receive_delta_with :
      (OrderBook c → Side → Px → Qty → Exec (OrderBook c))
      → OrderBook c
      → ℕ
      → Side
      → Px
      → Qty
      → Exec (OrderBook c × DeltaOutcome)
  unfolding classify_seq react
  receive_delta_with apply b seq side price delta =
      and_then (classify_seq b seq) (react apply b seq side price delta)

  unfoldable pub receive_delta :
      OrderBook c → ℕ → Side → Px → Qty → Exec (OrderBook c × DeltaOutcome)
  unfolding receive_delta_with apply_delta
  receive_delta = receive_delta_with apply_delta

  pub check_validity : OrderBook c → Result InvariantViolation Unit
  check_validity b =
      if b.valid
      then elim b.sid [
        | none ↦ err valid_without_sid
        | some _ ↦ elim b.last_seq [ none ↦ err valid_without_seq | some _ ↦ ok tt ]
      ]
      else ok tt

  unfoldable pub check_invariants : OrderBook c → Result InvariantViolation Unit
  unfolding check_levels check_validity check_crossed
  check_invariants b = do
    check_levels (codes "bid") b.bids
    check_levels (codes "ask") b.asks
    check_validity b
    check_crossed (final b.bids) (first b.asks)

  unfoldable pub no_bids : OrderBook c → Option (List Level)
  no_bids b = if b.valid then some (map complement_level b.asks) else none

-- `OrderBook::new`
unfoldable pub new : (c : Convention) → Ticker → OrderBook c
new c market = record {
  market = market;
  sid = none;
  bids = [];
  asks = [];
  valid = false;
  last_seq = none;
  grid = none;
  off_grid_observations = 0;
  desync_invalidations = 0;
}
