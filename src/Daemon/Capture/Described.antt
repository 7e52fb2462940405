-- ===== src/Daemon/Capture/Described.antt =====
-- The records that the read loop of bin/capture.rs makes of the text frames.
use kalshi_alpha.Prelude.{◌≡◌, refl, Option, none, some, List, [], ◌∷◌, ℤ}
use kalshi_alpha.Prelude.Text.{Text, codes}
use kalshi_alpha.Ingest.Wire.{
  ServerMessage, subscribed, unsubscribed, ok_message, error_message, orderbook_snapshot,
  orderbook_delta, ticker, trade, market_lifecycle, event_lifecycle, event_fee_update,
}
use kalshi_alpha.Ingest.Connection.{
  frame, read_failed, stream_ended, text_frame, ping, pong, binary, raw_frame, close_frame,
}
use kalshi_alpha.Store.Channel.{channel_str}
use kalshi_alpha.Store.Encode.{StoreRecord}
use kalshi_alpha.Daemon.Capture.{Event, shut_down, silence, arrivals, reading, channel_of, Setup}
use kalshi_alpha.Daemon.Capture.Offers.{records_in}

module _ (setup : Setup) where
  open setup use {json, parse_message}

  -- The name that the record of a message has in the store.
  abbrev pub table_of : Option (ServerMessage json.Value) → Text
  table_of none = codes "unparsed"
  table_of (some (orderbook_snapshot m)) = codes "orderbook_snapshot"
  table_of (some (orderbook_delta m)) = codes "orderbook_delta"
  table_of (some (ticker m)) = codes "ticker"
  table_of (some (trade m)) = codes "trade"
  table_of (some (market_lifecycle m)) = codes "market_lifecycle"
  table_of (some (event_lifecycle m)) = codes "market_lifecycle"
  table_of (some (event_fee_update m)) = codes "event_fee_update"
  table_of (some (subscribed m)) = codes "control"
  table_of (some (unsubscribed m)) = codes "control"
  table_of (some (ok_message m)) = codes "control"
  table_of (some (error_message m)) = codes "control"

  -- The record of a text frame.
  pub record IsRecordOf (raw : Text) (at : ℤ) (r : StoreRecord json) : Type 0 where
    pub text : r.raw ≡ raw
    pub instant : r.received_at ≡ at
    pub value : r.parsed ≡ json.from_text raw
    pub table : channel_str r.channel ≡ table_of (parse_message raw)

  -- The records are those of the text frames, in their order.
  abbrev pub Records : List Event → List (StoreRecord json) → Type 0
  Records [] rs = rs ≡ []
  Records (reading (frame (text_frame raw)) at ∷ es) [] = ⊥
  Records (reading (frame (text_frame raw)) at ∷ es) (r ∷ rs) = IsRecordOf raw at r × Records es rs
  Records (reading (frame ping) at ∷ es) rs = Records es rs
  Records (reading (frame pong) at ∷ es) rs = Records es rs
  Records (reading (frame binary) at ∷ es) rs = Records es rs
  Records (reading (frame raw_frame) at ∷ es) rs = Records es rs
  Records (reading (frame (close_frame why)) at ∷ es) rs = Records es rs
  Records (reading read_failed at ∷ es) rs = Records es rs
  Records (reading stream_ended at ∷ es) rs = Records es rs
  Records (shut_down ∷ es) rs = Records es rs
  Records (silence ∷ es) rs = Records es rs
  Records (arrivals markets ∷ es) rs = Records es rs

  channel_table :
      (m : Option (ServerMessage json.Value))
      → channel_str (channel_of json parse_message m) ≡ table_of m
  channel_table none = refl
  channel_table (some (orderbook_snapshot m)) = refl
  channel_table (some (orderbook_delta m)) = refl
  channel_table (some (ticker m)) = refl
  channel_table (some (trade m)) = refl
  channel_table (some (market_lifecycle m)) = refl
  channel_table (some (event_lifecycle m)) = refl
  channel_table (some (event_fee_update m)) = refl
  channel_table (some (subscribed m)) = refl
  channel_table (some (unsubscribed m)) = refl
  channel_table (some (ok_message m)) = refl
  channel_table (some (error_message m)) = refl

  pub records_in-Records : (es : List Event) → Records es (records_in json parse_message es)
  records_in-Records [] = refl
  records_in-Records (reading (frame (text_frame raw)) at ∷ es) = (
    record { text = refl; instant = refl; value = refl; table = channel_table (parse_message raw) },
    records_in-Records es,
  )
  records_in-Records (reading (frame ping) at ∷ es) = records_in-Records es
  records_in-Records (reading (frame pong) at ∷ es) = records_in-Records es
  records_in-Records (reading (frame binary) at ∷ es) = records_in-Records es
  records_in-Records (reading (frame raw_frame) at ∷ es) = records_in-Records es
  records_in-Records (reading (frame (close_frame why)) at ∷ es) = records_in-Records es
  records_in-Records (reading read_failed at ∷ es) = records_in-Records es
  records_in-Records (reading stream_ended at ∷ es) = records_in-Records es
  records_in-Records (shut_down ∷ es) = records_in-Records es
  records_in-Records (silence ∷ es) = records_in-Records es
  records_in-Records (arrivals markets ∷ es) = records_in-Records es
