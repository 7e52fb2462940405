-- ===== src/Daemon/Capture.antt =====
-- `run_connection` of bin/capture.rs: one connection, from its upgrade to its end. What the
-- `select!` of its loop sees is a list of events; the counters of metrics are unbounded.
pub mod Turns
pub mod Sound
pub mod Offers
pub mod Described
pub mod Received
pub mod Examples
use kalshi_alpha.Prelude.{
  ℕ, ◌+◌, Bool, true, false, not, Option, none, some, List, [], ◌∷◌, if◌then◌else◌, Result, ok, err,
  ℤ,
}
use kalshi_alpha.Prelude.Text.{Text, codes, byte_len, text_eq}
use kalshi_alpha.Ingest.Auth.{Credentials}
use kalshi_alpha.Ingest.Registry.{SubscriptionRegistry, empty_registry, register, retire}
use kalshi_alpha.Ingest.Wire.{
  ServerMessage, subscribed, unsubscribed, ok_message, error_message, orderbook_snapshot,
  orderbook_delta, ticker, trade, market_lifecycle, event_lifecycle, event_fee_update,
}
use kalshi_alpha.Ingest.Connection.{
  PricingConvention, WsError, idle_timeout, JsonWriter, Socket, Connection, connect, subscribe,
  Read, ReceivedMessage, next_message,
}
use kalshi_alpha.Store.Channel.{Channel}
use kalshi_alpha.Store.Json.{Json}
use kalshi_alpha.Store.Encode.{StoreRecord}
use kalshi_alpha.Store.Sink.{
  Mpsc, Offered, queued_record, dropped_record, writer_is_gone, SinkMetrics, offer,
}
use kalshi_alpha.Daemon.Subscribing.{Books, subscribe_markets}

pub record Metrics : Type 0 where
  pub messages : ℕ
  pub bytes : ℕ
  pub reconnects : ℕ
  pub idle_timeouts : ℕ
  pub lifecycle_events : ℕ
  pub unparsed : ℕ
  pub off_grid_prices : ℕ
  pub desync_invalidations : ℕ
  pub reconciliation_misses : ℕ
  pub late_subscriptions : ℕ
  pub snapshot_restarts : ℕ

-- The channels of the configuration but for the lifecycle channel.
unfoldable pub orderbook_channels : List Text → List Text
orderbook_channels [] = []
orderbook_channels (c ∷ cs) =
    let rest = orderbook_channels cs in
    if text_eq c (codes "market_lifecycle_v2") then rest else c ∷ rest

-- What the loop waits for: a reading has the instant behind it.
pub data Event : Type 0 where
  shut_down silence : Event
  arrivals : (markets : List Text) → Event
  reading : Read → (at : ℤ) → Event

module _ (json : Json) (parse_message : Text → Option (ServerMessage json.Value)) where
  abbrev pub Message : Type 0
  Message = ReceivedMessage parse_message

  abbrev pub channel_of : Option (ServerMessage json.Value) → Channel
  channel_of none = Channel.unparsed
  channel_of (some (orderbook_snapshot m)) = Channel.orderbook_snapshot
  channel_of (some (orderbook_delta m)) = Channel.orderbook_delta
  channel_of (some (ticker m)) = Channel.ticker
  channel_of (some (trade m)) = Channel.trade
  channel_of (some (market_lifecycle m)) = Channel.market_lifecycle
  channel_of (some (event_lifecycle m)) = Channel.market_lifecycle
  channel_of (some (event_fee_update m)) = Channel.event_fee_update
  channel_of (some (subscribed m)) = Channel.control
  channel_of (some (unsubscribed m)) = Channel.control
  channel_of (some (ok_message m)) = Channel.control
  channel_of (some (error_message m)) = Channel.control

  -- The counters that the choice of the channel changes.
  abbrev pub count_kind : Option (ServerMessage json.Value) → Metrics → Metrics
  count_kind none m = record m { unparsed = m.unparsed + 1 }
  count_kind (some (market_lifecycle p)) m = record m { lifecycle_events = m.lifecycle_events + 1 }
  count_kind (some (event_lifecycle p)) m = record m { lifecycle_events = m.lifecycle_events + 1 }
  count_kind (some other) m = m

  -- A subscription that the server confirms is registered, and one that it ends is retired.
  abbrev pub note_control : Message → SubscriptionRegistry → SubscriptionRegistry
  note_control received r = note received.parsed
    where
      note : Option (ServerMessage json.Value) → SubscriptionRegistry
      note (some (subscribed p)) = register r p.msg.sid p.msg.channel [] received.received_at
      note (some (unsubscribed p)) = (retire r p.sid).0
      note other = r

  abbrev pub record_of : Message → StoreRecord json
  record_of received = record {
    channel = channel_of received.parsed;
    received_at = received.received_at;
    raw = received.raw;
    parsed = json.from_text received.raw;
  }

-- The outer world of a connection, and what the configuration says of it.
pub record Setup : Type 1 where
  pub json : Json
  pub parse_message : Text → Option (ServerMessage json.Value)
  pub w : JsonWriter
  pub socket : Socket
  pub mpsc : Mpsc (StoreRecord json)
  pub channels : List Text
  pub convention : PricingConvention
  pub shard_size : ℕ
  pub idle_secs : ℕ

module _ (setup : Setup) where
  open setup use {json, parse_message, w, socket, mpsc, channels, convention, shard_size, idle_secs}

  -- What `run_connection` holds and what it shares.
  pub record Running : Type 0 where
    pub connection : Connection w socket
    pub registry : SubscriptionRegistry
    pub books : Books
    pub queue : mpsc.State × SinkMetrics
    pub metrics : Metrics

  -- How the function returns: `Reason::Shutdown`, or an error. While it runs it has no end.
  abbrev pub End : Type 0
  End = Option (Result WsError Unit)

  abbrev pub after_offer : Running → (mpsc.State × SinkMetrics) × Offered → Running × End
  after_offer s (queue, queued_record) = (record s { queue = queue }, none)
  after_offer s (queue, dropped_record) = (record s { queue = queue }, none)
  after_offer s (queue, writer_is_gone) = (record s { queue = queue }, some (ok tt))

  abbrev pub count_message : (Message json parse_message) → Metrics → Metrics
  count_message received m =
      count_kind json parse_message received.parsed
        (record m { messages = m.messages + 1; bytes = m.bytes + byte_len received.raw })

  unfoldable pub handle_message : (Message json parse_message) → Running → Running × End
  unfolding offer register retire
  handle_message received s =
      after_offer
        (record s {
          registry = note_control json parse_message received s.registry;
          metrics = count_message received s.metrics;
        })
        (offer mpsc s.queue (record_of json parse_message received))

  abbrev pub on_read :
      Result WsError (Option (Message json parse_message)) → Running → Running × End
  on_read (err e) s = (s, some (err e))
  on_read (ok none) s = (s, none)
  on_read (ok (some received)) s = handle_message received s

  abbrev pub count_late : ℕ → Metrics → Metrics
  count_late n m = record m { late_subscriptions = m.late_subscriptions + n }

  abbrev pub on_arrivals :
      Running → (Connection w socket × Books) × Result WsError ℕ → Running × End
  on_arrivals s ((c, books), ok n) =
      (record s { connection = c; books = books; metrics = count_late n s.metrics }, none)
  on_arrivals s ((c, books), err e) = (record s { connection = c; books = books }, some (err e))

  -- One turn of the loop.
  unfoldable pub turn : Event → Running → Running × End
  unfolding handle_message orderbook_channels subscribe_markets next_message
  turn shut_down s = (s, some (ok tt))
  turn silence s = (
    record s { metrics = record (s.metrics) { idle_timeouts = s.metrics.idle_timeouts + 1 } },
    some (err (idle_timeout idle_secs)),
  )
  turn (arrivals markets) s = on_arrivals s (
      subscribe_markets w socket (orderbook_channels channels) convention shard_size markets
        (s.connection, s.books))
  turn (reading r at) s = on_read (next_message parse_message r at) s

  abbrev pub unless_ended : (Running → Running × End) → Running × End → Running × End
  unless_ended next (s, none) = next s
  unless_ended next (s, some end) = (s, some end)

  -- The loop, over the events that it sees.
  unfoldable pub read_loop : List Event → Running → Running × End
  unfolding turn
  read_loop [] s = (s, none)
  read_loop (e ∷ es) s = unless_ended (λ s'. read_loop es s') (turn e s)

  abbrev pub after_markets :
      (Running → Running × End)
      → Running
      → (Connection w socket × Books) × Result WsError ℕ
      → Running × End
  after_markets next s ((c, books), ok n) = next (record s { connection = c; books = books })
  after_markets next s ((c, books), err e) =
      (record s { connection = c; books = books }, some (err e))

  abbrev pub after_lifecycle :
      (Running → Running × End)
      → Running
      → List Text
      → Connection w socket × Result WsError ℕ
      → Running × End
  after_lifecycle next s markets (c, err e) = (record s { connection = c }, some (err e))
  after_lifecycle next s markets (c, ok id) = after_markets next s (
      subscribe_markets w socket (orderbook_channels channels) convention shard_size markets
        (c, s.books))

  -- What the connection is when its upgrade has succeeded.
  abbrev pub fresh_state : Connection w socket → mpsc.State × SinkMetrics → Metrics → Running
  fresh_state c queue metrics = record {
    connection = c;
    registry = empty_registry;
    books = [];
    queue = queue;
    metrics = metrics;
  }

  -- The function behind the upgrade: the lifecycle channel, the markets, and the loop.
  unfoldable pub run_subscribed : List Text → List Event → Running → Running × End
  unfolding subscribe subscribe_markets orderbook_channels read_loop
  run_subscribed markets events s =
      after_lifecycle (λ s'. read_loop events s') s markets
        (subscribe w socket (codes "market_lifecycle_v2" ∷ []) [] convention s.connection)

  -- Without a connection the queue and the metrics stay as they are.
  unfoldable pub run_connection :
      (url : Text)
      → Credentials
      → Option ℕ
      → List Text
      → List Event
      → mpsc.State × SinkMetrics
      → Metrics
      → Result WsError (Running × End)
  unfolding connect run_subscribed
  run_connection url credentials clock markets events queue metrics =
      elim (connect w socket url credentials clock) [
        | err e ↦ err e
        | ok c ↦ ok (run_subscribed markets events (fresh_state c queue metrics))
      ]
