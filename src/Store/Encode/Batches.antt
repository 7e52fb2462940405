-- ===== src/Store/Encode/Batches.antt =====
-- `encode` and `expected_rows` of crates/store/src/encode.rs. A batch is its rows.
use kalshi_alpha.Prelude.{
  ℕ, ◌+◌, Bool, Option, none, some, List, [], ◌∷◌, ◌++◌, map, length, ◌==◌, if◌then◌else◌, Result,
  ok, err, Exec, done, and_then,
}
use kalshi_alpha.Prelude.Text.{Text}
use kalshi_alpha.Store.Channel.{
  Channel, channel_str, orderbook_snapshot, orderbook_delta, ticker, trade, market_lifecycle,
  event_fee_update, price_ranges, unparsed, control,
}
use kalshi_alpha.Store.Schema.{Field, schema}
use kalshi_alpha.Store.Json.{Json}
use kalshi_alpha.Store.Encode.{Row, StoreRecord, body}
use kalshi_alpha.Store.Encode.Rows.{
  level_count, snapshot_rows, delta_row, ticker_row, trade_row, lifecycle_row, fee_update_row,
  price_ranges_row, unparsed_row, control_row,
}

pub data EncodeError : Type 0 where
  batch : (channel : Text) → EncodeError

-- `max(1)`
abbrev pub at_least_one : ℕ → ℕ
at_least_one n = if n == 0 then 1 else n

module _ (json : Json) where
  -- The loops over the records.
  abbrev pub each_row : (StoreRecord json → Row) → List (StoreRecord json) → Exec (List Row)
  each_row row records = done (map row records)

  abbrev pub each_exec : (StoreRecord json → Exec Row) → List (StoreRecord json) → Exec (List Row)
  each_exec row [] = done []
  each_exec row (r ∷ rs) = and_then (row r) λ x. and_then (each_exec row rs) λ xs. done (x ∷ xs)

  abbrev pub all_rows : (StoreRecord json → List Row) → List (StoreRecord json) → List Row
  all_rows rows [] = []
  all_rows rows (r ∷ rs) = rows r ++ all_rows rows rs

  unfoldable pub encode_rows : Channel → Text → List (StoreRecord json) → Exec (List Row)
  unfolding snapshot_rows delta_row ticker_row trade_row lifecycle_row fee_update_row
      price_ranges_row unparsed_row control_row
  encode_rows orderbook_snapshot session_id records =
      done (all_rows (snapshot_rows json session_id) records)
  encode_rows orderbook_delta session_id records = each_row (delta_row json session_id) records
  encode_rows ticker session_id records = each_exec (ticker_row json session_id) records
  encode_rows trade session_id records = each_exec (trade_row json session_id) records
  encode_rows market_lifecycle session_id records = each_row (lifecycle_row json session_id) records
  encode_rows event_fee_update session_id records =
      each_row (fee_update_row json session_id) records
  encode_rows price_ranges session_id records = each_row (price_ranges_row json session_id) records
  encode_rows unparsed session_id records = each_row (unparsed_row json session_id) records
  encode_rows control session_id records = each_row (control_row json session_id) records

  abbrev pub sum_levels : List (StoreRecord json) → ℕ
  sum_levels [] = 0
  sum_levels (r ∷ rs) = at_least_one (level_count json (body json r)) + sum_levels rs

  unfoldable pub expected_rows : Channel → List (StoreRecord json) → ℕ
  unfolding level_count body
  expected_rows orderbook_snapshot records = sum_levels records
  expected_rows channel records = length records

  module _ (accepts : List Field → List Row → Bool) where
    abbrev pub finish : Channel → List Row → Result EncodeError (Option (List Row))
    finish channel rows =
        if accepts (schema channel) rows then ok (some rows) else err (batch (channel_str channel))

    unfoldable pub encode :
        Channel → Text → List (StoreRecord json) → Exec (Result EncodeError (Option (List Row)))
    unfolding encode_rows schema
    encode channel session_id [] = done (ok none)
    encode channel session_id (r ∷ rs) =
        and_then (encode_rows channel session_id (r ∷ rs)) λ rows. done (finish channel rows)
