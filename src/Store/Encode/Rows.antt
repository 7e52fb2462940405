-- ===== src/Store/Encode/Rows.antt =====
-- The loop bodies of crates/store/src/encode.rs: the row, or rows, of a record for each channel.
use kalshi_alpha.Prelude.{
  ℕ, zero, suc, ◌+◌, ◌^◌, Bool, true, false, Option, none, some, List, [], ◌∷◌, ◌++◌, length, ltb,
  ◌==◌, if◌then◌else◌, ℤ, pos, negsuc, Exec, done, and_then,
}
use kalshi_alpha.Prelude.Text.{Text, codes}
use kalshi_alpha.Store.Json.{Json}
use kalshi_alpha.Store.GridHistory.{grid_hash}
use kalshi_alpha.Store.Encode.{
  Row, Cell, null_cell, text_cell, int_cell, int32_cell, time_cell, bool_cell, cell_of, or_else,
  or_text, then_get, i32_of, push_price, push_qty, common_cells, StoreRecord, str_field, int_field,
  bool_field, number_token, or_null, body, envelope_sid, envelope_seq, common_of, exchange_ts,
}

module _ (json : Json) where
  -- Whether a level is an array.
  abbrev pub is_level : Option (List json.Value) → Bool
  is_level none = false
  is_level (some pair) = true

  abbrev pub count_levels : List json.Value → ℕ
  count_levels [] = 0
  count_levels (level ∷ levels) =
      if is_level (json.as_array level) then suc (count_levels levels) else count_levels levels

  abbrev pub count_side : Option (List json.Value) → ℕ
  count_side none = 0
  count_side (some levels) = count_levels levels

  -- The levels of a side.
  abbrev pub levels_of : json.Value → Text → Option (List json.Value)
  levels_of msg key = then_get (json.get msg key) json.as_array

  unfoldable pub level_count : json.Value → ℕ
  level_count msg =
      count_side (levels_of msg (codes "yes_dollars_fp"))
      + count_side (levels_of msg (codes "no_dollars_fp"))

  abbrev pub nth_text : ℕ → List json.Value → Option Text
  nth_text n [] = none
  nth_text zero (v ∷ vs) = json.as_str v
  nth_text (suc n) (v ∷ vs) = nth_text n vs

module _ (json : Json) (session_id : Text) where
  abbrev msg_text : json.Value → Text → Cell
  msg_text msg key = text_cell (or_text (str_field json msg key) [])

  abbrev msg_option : json.Value → Text → Cell
  msg_option msg key = cell_of text_cell (str_field json msg key)

  abbrev msg_int : json.Value → Text → Cell
  msg_int msg key = cell_of int_cell (int_field json msg key)

  abbrev msg_bool : json.Value → Text → Cell
  msg_bool msg key = cell_of bool_cell (bool_field json msg key)

  abbrev pub snapshot_row : StoreRecord json → Cell → Option Text → Option Text → Cell → Row
  snapshot_row r side price size level_index =
      let msg = body json r in
      common_of json r (int_field json msg (codes "ts_ms")) session_id (
        msg_text msg (codes "market_ticker")
        ∷ msg_option msg (codes "market_id")
        ∷ side
        ∷ push_price price (push_qty size (level_index ∷ [])))

  -- A level gives a row when it is an array.
  abbrev pub level_row :
      StoreRecord json → Text → ℕ → Option (List json.Value) → List Row → List Row
  level_row r side index none rows = rows
  level_row r side index (some pair) rows =
      snapshot_row r (text_cell side) (nth_text json 0 pair) (nth_text json 1 pair)
        (int32_cell (if ltb index (2 ^ 31) then pos index else negsuc 0))
      ∷ rows

  unfoldable pub level_rows : StoreRecord json → Text → ℕ → List json.Value → List Row
  unfolding body common_cells push_price push_qty
  level_rows r side index [] = []
  level_rows r side index (level ∷ levels) =
      level_row r side index (json.as_array level) (level_rows r side (suc index) levels)

  abbrev pub side_rows : StoreRecord json → Text → Option (List json.Value) → List Row
  side_rows r side none = []
  side_rows r side (some levels) = level_rows r side 0 levels

  -- A record of `encode_orderbook_snapshot`.
  unfoldable pub snapshot_rows : StoreRecord json → List Row
  unfolding level_rows level_count
  snapshot_rows r =
      let msg = body json r in
      if level_count json msg == 0
      then snapshot_row r null_cell none none null_cell ∷ []
      else side_rows r (codes "yes") (levels_of json msg (codes "yes_dollars_fp"))
        ++ side_rows r (codes "no") (levels_of json msg (codes "no_dollars_fp"))

  unfoldable pub delta_row : StoreRecord json → Row
  unfolding body common_cells push_price push_qty
  delta_row r =
      let msg = body json r in
      common_of json r (int_field json msg (codes "ts_ms")) session_id (
        msg_text msg (codes "market_ticker")
        ∷ msg_option msg (codes "market_id")
        ∷ msg_text msg (codes "side")
        ∷ push_price (str_field json msg (codes "price_dollars"))
            (push_qty (str_field json msg (codes "delta_fp")) []))

  abbrev pub ticker_cells : StoreRecord json → Option ℤ → Row
  ticker_cells r ts =
      let msg = body json r in
      let text = str_field json msg in
      common_of json r ts session_id (
        msg_text msg (codes "market_ticker")
        ∷ msg_option msg (codes "market_id")
        ∷ push_price (text (codes "price_dollars")) (
            push_price (text (codes "yes_bid_dollars")) (
              push_price (text (codes "yes_ask_dollars")) (
                push_qty (text (codes "yes_bid_size_fp")) (
                  push_qty (text (codes "yes_ask_size_fp")) (
                    push_qty (text (codes "volume_fp"))
                      (push_qty (text (codes "open_interest_fp")) [])))))))

  unfoldable pub ticker_row : StoreRecord json → Exec Row
  unfolding body common_cells push_price push_qty exchange_ts
  ticker_row r = and_then (exchange_ts json (body json r)) λ ts. done (ticker_cells r ts)

  abbrev pub trade_cells : StoreRecord json → Option ℤ → Row
  trade_cells r ts =
      let msg = body json r in
      let text = str_field json msg in
      common_of json r ts session_id (
        msg_option msg (codes "trade_id")
        ∷ msg_text msg (codes "market_ticker")
        ∷ push_price (text (codes "yes_price_dollars")) (
            push_price (text (codes "no_price_dollars")) (
              push_qty (text (codes "count_fp")) (
                msg_option msg (codes "taker_outcome_side")
                ∷ msg_option msg (codes "taker_book_side")
                ∷ msg_option msg (codes "taker_side")
                ∷ msg_bool msg (codes "is_block_trade")
                ∷ []))))

  unfoldable pub trade_row : StoreRecord json → Exec Row
  unfolding body common_cells push_price push_qty exchange_ts
  trade_row r = and_then (exchange_ts json (body json r)) λ ts. done (trade_cells r ts)

  unfoldable pub lifecycle_row : StoreRecord json → Row
  unfolding body common_cells push_price
  lifecycle_row r =
      let msg = body json r in
      common_of json r (int_field json msg (codes "ts_ms")) session_id (
        msg_text msg (codes "event_type")
        ∷ text_cell (
            or_text
              (or_else (str_field json msg (codes "market_ticker"))
                (str_field json msg (codes "event_ticker")))
              [])
        ∷ msg_option msg (codes "result")
        ∷ push_price (str_field json msg (codes "settlement_value")) (
            msg_int msg (codes "open_ts")
            ∷ msg_int msg (codes "close_ts")
            ∷ msg_int msg (codes "determination_ts")
            ∷ msg_int msg (codes "settled_ts")
            ∷ msg_bool msg (codes "is_deactivated")
            ∷ msg_option msg (codes "price_level_structure")
            ∷ []))

  unfoldable pub fee_update_row : StoreRecord json → Row
  unfolding body common_cells
  fee_update_row r =
      let msg = body json r in
      common_of json r (int_field json msg (codes "ts_ms")) session_id (
        msg_text msg (codes "event_ticker")
        ∷ msg_option msg (codes "fee_type_override")
        ∷ cell_of text_cell (number_token json msg (codes "fee_multiplier_override"))
        ∷ [])

  unfoldable pub price_ranges_row : StoreRecord json → Row
  unfolding body common_cells grid_hash
  price_ranges_row r =
      let msg = body json r in
      let ranges = json.get msg (codes "price_ranges") in
      let raw_ranges = or_text (then_get ranges λ v. some (json.to_text v)) [] in
      let bands = then_get (then_get ranges json.as_array) λ l. i32_of (pos (length l)) in
      common_of json r (int_field json msg (codes "ts_ms")) session_id (
        msg_text msg (codes "market_ticker")
        ∷ text_cell (or_text (str_field json msg (codes "source")) (codes "discovery"))
        ∷ cell_of time_cell (int_field json msg (codes "effective_at_ns"))
        ∷ msg_option msg (codes "price_level_structure")
        ∷ text_cell raw_ranges
        ∷ text_cell (grid_hash raw_ranges)
        ∷ cell_of int32_cell bands
        ∷ [])

  unfoldable pub unparsed_row : StoreRecord json → Row
  unfolding common_cells
  unparsed_row r = common_of json r none session_id (
      cell_of text_cell (then_get r.parsed λ v. str_field json v (codes "parse_error"))
      ∷ cell_of text_cell (then_get (json.from_text r.raw) λ v. str_field json v (codes "type"))
      ∷ [])

  unfoldable pub control_row : StoreRecord json → Row
  unfolding body common_cells
  control_row r =
      let msg = body json r in
      let sid = or_else (envelope_sid json r) (then_get (json.get msg (codes "sid")) json.as_u64) in
      common_cells r.received_at none session_id sid (envelope_seq json r) r.raw (
        msg_option (or_null json r.parsed) (codes "type")
        ∷ msg_option msg (codes "channel")
        ∷ cell_of int32_cell (then_get (int_field json msg (codes "code")) i32_of)
        ∷ msg_option msg (codes "msg")
        ∷ [])
