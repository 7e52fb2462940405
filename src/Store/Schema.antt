-- ===== src/Store/Schema.antt =====
-- crates/store/src/schema.rs: the columns of each channel's files.
use kalshi_alpha.Prelude.{Bool, true, false, List, [], ◌∷◌, ◌++◌}
use kalshi_alpha.Prelude.Text.{Text, codes}
use kalshi_alpha.Store.Channel.{
  Channel, orderbook_snapshot, orderbook_delta, ticker, trade, market_lifecycle, event_fee_update,
  price_ranges, unparsed, control,
}

-- The Arrow types in use; a timestamp is in nanoseconds, in UTC.
pub data DataType : Type 0 where
  utf8 int64 int32 boolean timestamp : DataType

pub record Field : Type 0 where
  pub name : Text
  pub data_type : DataType
  pub nullable : Bool

abbrev pub field : Text → DataType → Bool → Field
field name data_type nullable = record { name = name; data_type = data_type; nullable = nullable }

abbrev pub common_fields : List Field
common_fields =
    field (codes "received_at_ns") timestamp false
    ∷ field (codes "exchange_ts_ms") int64 true
    ∷ field (codes "session_id") utf8 false
    ∷ field (codes "sid") int64 true
    ∷ field (codes "seq") int64 true
    ∷ field (codes "raw_message") utf8 false
    ∷ []

abbrev pub orderbook_snapshot_fields : List Field
orderbook_snapshot_fields =
    field (codes "market_ticker") utf8 false
    ∷ field (codes "market_id") utf8 true
    ∷ field (codes "side") utf8 true
    ∷ field (codes "price_raw") utf8 true
    ∷ field (codes "price_micros") int64 true
    ∷ field (codes "size_raw") utf8 true
    ∷ field (codes "size_fp_units") int64 true
    ∷ field (codes "level_index") int32 true
    ∷ []

abbrev pub orderbook_delta_fields : List Field
orderbook_delta_fields =
    field (codes "market_ticker") utf8 false
    ∷ field (codes "market_id") utf8 true
    ∷ field (codes "side") utf8 false
    ∷ field (codes "price_raw") utf8 false
    ∷ field (codes "price_micros") int64 true
    ∷ field (codes "delta_raw") utf8 false
    ∷ field (codes "delta_fp_units") int64 true
    ∷ []

abbrev pub ticker_fields : List Field
ticker_fields =
    field (codes "market_ticker") utf8 false
    ∷ field (codes "market_id") utf8 true
    ∷ field (codes "price_raw") utf8 true
    ∷ field (codes "price_micros") int64 true
    ∷ field (codes "yes_bid_raw") utf8 true
    ∷ field (codes "yes_bid_micros") int64 true
    ∷ field (codes "yes_ask_raw") utf8 true
    ∷ field (codes "yes_ask_micros") int64 true
    ∷ field (codes "yes_bid_size_raw") utf8 true
    ∷ field (codes "yes_bid_size_fp_units") int64 true
    ∷ field (codes "yes_ask_size_raw") utf8 true
    ∷ field (codes "yes_ask_size_fp_units") int64 true
    ∷ field (codes "volume_raw") utf8 true
    ∷ field (codes "volume_fp_units") int64 true
    ∷ field (codes "open_interest_raw") utf8 true
    ∷ field (codes "open_interest_fp_units") int64 true
    ∷ []

abbrev pub trade_fields : List Field
trade_fields =
    field (codes "trade_id") utf8 true
    ∷ field (codes "market_ticker") utf8 false
    ∷ field (codes "yes_price_raw") utf8 true
    ∷ field (codes "yes_price_micros") int64 true
    ∷ field (codes "no_price_raw") utf8 true
    ∷ field (codes "no_price_micros") int64 true
    ∷ field (codes "count_raw") utf8 true
    ∷ field (codes "count_fp_units") int64 true
    ∷ field (codes "taker_outcome_side") utf8 true
    ∷ field (codes "taker_book_side") utf8 true
    ∷ field (codes "taker_side_deprecated") utf8 true
    ∷ field (codes "is_block_trade") boolean true
    ∷ []

abbrev pub market_lifecycle_fields : List Field
market_lifecycle_fields =
    field (codes "event_type") utf8 false
    ∷ field (codes "market_ticker") utf8 false
    ∷ field (codes "result") utf8 true
    ∷ field (codes "settlement_value_raw") utf8 true
    ∷ field (codes "settlement_value_micros") int64 true
    ∷ field (codes "open_ts") int64 true
    ∷ field (codes "close_ts") int64 true
    ∷ field (codes "determination_ts") int64 true
    ∷ field (codes "settled_ts") int64 true
    ∷ field (codes "is_deactivated") boolean true
    ∷ field (codes "price_level_structure") utf8 true
    ∷ []

abbrev pub event_fee_update_fields : List Field
event_fee_update_fields =
    field (codes "event_ticker") utf8 false
    ∷ field (codes "fee_type_override") utf8 true
    ∷ field (codes "fee_multiplier_override_raw") utf8 true
    ∷ []

abbrev pub price_ranges_fields : List Field
price_ranges_fields =
    field (codes "market_ticker") utf8 false
    ∷ field (codes "source") utf8 false
    ∷ field (codes "effective_at") timestamp true
    ∷ field (codes "price_level_structure") utf8 true
    ∷ field (codes "price_ranges_raw") utf8 false
    ∷ field (codes "price_ranges_hash") utf8 false
    ∷ field (codes "band_count") int32 true
    ∷ []

abbrev pub unparsed_fields : List Field
unparsed_fields =
    field (codes "parse_error") utf8 true ∷ field (codes "message_type") utf8 true ∷ []

abbrev pub control_fields : List Field
control_fields =
    field (codes "message_type") utf8 true
    ∷ field (codes "channel") utf8 true
    ∷ field (codes "error_code") int32 true
    ∷ field (codes "error_message") utf8 true
    ∷ []

-- `schema_with`
abbrev pub schema_with : List Field → List Field
schema_with extra = common_fields ++ extra

-- `Channel::schema`
unfoldable pub schema : Channel → List Field
schema orderbook_snapshot = schema_with orderbook_snapshot_fields
schema orderbook_delta = schema_with orderbook_delta_fields
schema ticker = schema_with ticker_fields
schema trade = schema_with trade_fields
schema market_lifecycle = schema_with market_lifecycle_fields
schema event_fee_update = schema_with event_fee_update_fields
schema price_ranges = schema_with price_ranges_fields
schema unparsed = schema_with unparsed_fields
schema control = schema_with control_fields

pub data Scale : Type 0 where
  price quantity : Scale

pub record DualColumn : Type 0 where
  pub raw : Text
  pub parsed : Text
  pub scale : Scale

abbrev pub dual : Text → Text → Scale → DualColumn
dual raw parsed scale = record { raw = raw; parsed = parsed; scale = scale }

unfoldable pub dual_columns : Channel → List DualColumn
dual_columns orderbook_snapshot =
    dual (codes "price_raw") (codes "price_micros") price
    ∷ dual (codes "size_raw") (codes "size_fp_units") quantity
    ∷ []
dual_columns orderbook_delta =
    dual (codes "price_raw") (codes "price_micros") price
    ∷ dual (codes "delta_raw") (codes "delta_fp_units") quantity
    ∷ []
dual_columns ticker =
    dual (codes "price_raw") (codes "price_micros") price
    ∷ dual (codes "yes_bid_raw") (codes "yes_bid_micros") price
    ∷ dual (codes "yes_ask_raw") (codes "yes_ask_micros") price
    ∷ dual (codes "yes_bid_size_raw") (codes "yes_bid_size_fp_units") quantity
    ∷ dual (codes "yes_ask_size_raw") (codes "yes_ask_size_fp_units") quantity
    ∷ dual (codes "volume_raw") (codes "volume_fp_units") quantity
    ∷ dual (codes "open_interest_raw") (codes "open_interest_fp_units") quantity
    ∷ []
dual_columns trade =
    dual (codes "yes_price_raw") (codes "yes_price_micros") price
    ∷ dual (codes "no_price_raw") (codes "no_price_micros") price
    ∷ dual (codes "count_raw") (codes "count_fp_units") quantity
    ∷ []
dual_columns market_lifecycle =
    dual (codes "settlement_value_raw") (codes "settlement_value_micros") price ∷ []
dual_columns event_fee_update = []
dual_columns price_ranges = []
dual_columns unparsed = []
dual_columns control = []
