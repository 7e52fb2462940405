-- ===== src/Ingest/Wire.antt =====
-- crates/ingest/src/wire.rs: the messages of the market-data socket. `serde` builds them, so their
-- parser is a parameter of what reads them; V is the type of a JSON value, and a raw JSON number is
-- its token.
use kalshi_alpha.Prelude.{
  ℕ, Bool, true, false, Option, none, some, List, if◌then◌else◌, Result, ok, ◌>>=◌, ℤ,
}
use kalshi_alpha.Prelude.Text.{Text, codes, text_eq}
use kalshi_alpha.Common.Parse.{ParseFixedError}
use kalshi_alpha.Common.Px.{Px, parse_dollars}
use kalshi_alpha.Common.Qty.{Qty, parse_fp}
use kalshi_alpha.Common.Ticker.{Side, yes_side, no_side}
use kalshi_alpha.Ingest.Registry.{ErrorBody}

pub record SubscribedBody : Type 0 where
  pub channel : Text
  pub sid : ℕ

pub record SubscribedPayload : Type 0 where
  pub id : Option ℕ
  pub msg : SubscribedBody

pub record UnsubscribedPayload : Type 0 where
  pub id : Option ℕ
  pub sid : ℕ
  pub seq : Option ℕ

pub record OkPayload : Type 0 where
  pub id : Option ℕ
  pub sid : Option ℕ
  pub seq : Option ℕ

pub record ErrorPayload : Type 0 where
  pub id : Option ℕ
  pub msg : ErrorBody

-- One `[price, size]` level of a snapshot.
pub record RawLevel : Type 0 where
  pub price_raw : Text
  pub size_raw : Text

-- `RawLevel::parse`
unfoldable pub parse_level : RawLevel → Result ParseFixedError (Px × Qty)
unfolding parse_dollars parse_fp
parse_level l = do price ← parse_dollars l.price_raw; size ← parse_fp l.size_raw; ok (price, size)

pub record OrderbookSnapshotBody : Type 0 where
  pub market_ticker : Text
  pub market_id : Option Text
  pub yes_dollars_fp : List RawLevel
  pub no_dollars_fp : List RawLevel

pub record OrderbookSnapshotPayload : Type 0 where
  pub sid : ℕ
  pub seq : ℕ
  pub msg : OrderbookSnapshotBody

pub record OrderbookDeltaBody : Type 0 where
  pub market_ticker : Text
  pub market_id : Option Text
  pub price_dollars : Text
  pub delta_fp : Text
  pub side : Side
  pub ts : Option Text
  pub ts_ms : Option ℤ

pub record OrderbookDeltaPayload : Type 0 where
  pub sid : ℕ
  pub seq : ℕ
  pub msg : OrderbookDeltaBody

pub record TickerBody : Type 0 where
  pub market_ticker : Text
  pub market_id : Option Text
  pub price_dollars : Option Text
  pub yes_bid_dollars : Option Text
  pub yes_ask_dollars : Option Text
  pub yes_bid_size_fp : Option Text
  pub yes_ask_size_fp : Option Text
  pub last_trade_size_fp : Option Text
  pub volume_fp : Option Text
  pub open_interest_fp : Option Text
  pub dollar_volume : Option ℤ
  pub dollar_open_interest : Option ℤ
  pub ts_ms : Option ℤ
  pub ts : Option ℤ
  pub time : Option Text

pub record TickerPayload : Type 0 where
  pub sid : ℕ
  pub msg : TickerBody

pub record TradeBody : Type 0 where
  pub trade_id : Option Text
  pub market_ticker : Text
  pub yes_price_dollars : Option Text
  pub no_price_dollars : Option Text
  pub count_fp : Option Text
  pub taker_outcome_side : Option Side
  pub taker_book_side : Option Text
  pub taker_side : Option Side
  pub is_block_trade : Option Bool
  pub ts_ms : Option ℤ
  pub ts : Option ℤ

pub record TradePayload : Type 0 where
  pub sid : ℕ
  pub msg : TradeBody

abbrev pub side_of_book_side : Text → Option Side
side_of_book_side s =
    if text_eq s (codes "bid")
    then some yes_side
    else if text_eq s (codes "ask")
    then some no_side
    else none

abbrev pub first_direction : Option Side → Option Text → Option Side → Option Side
first_direction (some side) book_side deprecated = some side
first_direction none (some s) deprecated = side_of_book_side s
first_direction none none deprecated = deprecated

unfoldable pub direction : TradeBody → Option Side
direction t = first_direction t.taker_outcome_side t.taker_book_side t.taker_side

pub record MarketLifecycleBody (V : Type 0) : Type 0 where
  pub event_type : Text
  pub market_ticker : Text
  pub exchange_index : Option ℤ
  pub open_ts : Option ℤ
  pub close_ts : Option ℤ
  pub result : Option Text
  pub determination_ts : Option ℤ
  pub settlement_value : Option Text
  pub settled_ts : Option ℤ
  pub is_deactivated : Option Bool
  pub price_level_structure : Option Text
  pub price_ranges : Option V
  pub strike_type : Option Text
  pub floor_strike : Option V
  pub cap_strike : Option V
  pub custom_strike : Option V
  pub yes_sub_title : Option Text
  pub additional_metadata : Option V

pub record MarketLifecyclePayload (V : Type 0) : Type 0 where
  pub sid : ℕ
  pub msg : MarketLifecycleBody V

abbrev pub is_some_of : {A : Type 0} → Option A → Bool
is_some_of none = false
is_some_of (some a) = true

unfoldable pub is_created : {V : Type 0} → MarketLifecycleBody V → Bool
is_created b = text_eq b.event_type (codes "created")

unfoldable pub changes_price_grid : {V : Type 0} → MarketLifecycleBody V → Bool
changes_price_grid b = is_some_of b.price_ranges

pub record EventLifecycleBody : Type 0 where
  pub event_ticker : Text
  pub series_ticker : Option Text
  pub title : Option Text
  pub subtitle : Option Text
  pub collateral_return_type : Option Text
  pub strike_date : Option ℤ
  pub strike_period : Option Text
  pub exchange_index : Option ℤ

pub record EventLifecyclePayload : Type 0 where
  pub sid : ℕ
  pub msg : EventLifecycleBody

pub record EventFeeUpdateBody : Type 0 where
  pub event_ticker : Text
  pub fee_type_override : Option Text
  pub fee_multiplier_override : Option Text

pub record EventFeeUpdatePayload : Type 0 where
  pub sid : ℕ
  pub msg : EventFeeUpdateBody

-- The token is the text of the number.
unfoldable pub multiplier_raw : EventFeeUpdateBody → Option Text
multiplier_raw b = b.fee_multiplier_override

pub data ServerMessage (V : Type 0) : Type 0 where
  subscribed : SubscribedPayload → ServerMessage V
  unsubscribed : UnsubscribedPayload → ServerMessage V
  ok_message : OkPayload → ServerMessage V
  error_message : ErrorPayload → ServerMessage V
  orderbook_snapshot : OrderbookSnapshotPayload → ServerMessage V
  orderbook_delta : OrderbookDeltaPayload → ServerMessage V
  ticker : TickerPayload → ServerMessage V
  trade : TradePayload → ServerMessage V
  market_lifecycle : MarketLifecyclePayload V → ServerMessage V
  event_lifecycle : EventLifecyclePayload → ServerMessage V
  event_fee_update : EventFeeUpdatePayload → ServerMessage V

unfoldable pub sid_of : {V : Type 0} → ServerMessage V → Option ℕ
sid_of (subscribed m) = some m.msg.sid
sid_of (unsubscribed m) = some m.sid
sid_of (ok_message m) = m.sid
sid_of (error_message m) = none
sid_of (orderbook_snapshot m) = some m.sid
sid_of (orderbook_delta m) = some m.sid
sid_of (ticker m) = some m.sid
sid_of (trade m) = some m.sid
sid_of (market_lifecycle m) = some m.sid
sid_of (event_lifecycle m) = some m.sid
sid_of (event_fee_update m) = some m.sid

unfoldable pub seq_of : {V : Type 0} → ServerMessage V → Option ℕ
seq_of (orderbook_snapshot m) = some m.seq
seq_of (orderbook_delta m) = some m.seq
seq_of m = none
