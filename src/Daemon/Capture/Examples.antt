-- ===== src/Daemon/Capture/Examples.antt =====
-- A connection of two markets: it reads a confirmation, is handed a third market and then a text
-- that does not parse.
use kalshi_alpha.Prelude.{
  ℕ, ◌+◌, ◌≡◌, refl, true, Option, none, some, List, [], ◌∷◌, ◌++◌, All, Result, ok, pos,
}
use kalshi_alpha.Prelude.Text.{Text, codes, text_eq}
use kalshi_alpha.Common.Ticker.{parse}
use kalshi_alpha.Ingest.Auth.{Credentials}
use kalshi_alpha.Ingest.Book.AnyBook.{any_levels}
use kalshi_alpha.Ingest.Client.Discovery.{contains_text}
use kalshi_alpha.Ingest.Wire.{ServerMessage, subscribed}
use kalshi_alpha.Ingest.Connection.{
  no_leg_pricing, WsError, JsonWriter, Socket, Connection, frame, text_frame,
}
use kalshi_alpha.Ingest.Connection.Commands.{subscribed_in}
use kalshi_alpha.Store.Encode.Examples.{sample_json}
use kalshi_alpha.Store.Sink.{no_metrics}
use kalshi_alpha.Store.Sink.Examples.{slot}
use kalshi_alpha.Daemon.Subscribing.Once.{IsSubscribed}
use kalshi_alpha.Daemon.Capture.{
  Metrics, Setup, Event, arrivals, reading, Running, orderbook_channels, fresh_state,
  run_subscribed, run_connection,
}
use kalshi_alpha.Daemon.Capture.Sound.{
  run_connection_sound, run_connection_covers, books_unreadable,
}
use kalshi_alpha.Daemon.Capture.Received.{Handled, run_connection_offers}

-- JSON values as their texts, and a socket that takes all.
abbrev writer : JsonWriter
writer = record {
  Value = Text;
  text = λ t. t;
  number = λ n. n ∷ [];
  flag = λ b. [];
  array = λ vs. [];
  object = λ fs. codes "object";
  to_string = λ v. some v;
}

abbrev line : Socket
line = record {
  State = ℕ;
  send = λ n t. (n + 1, true);
  is_request = λ url. true;
  valid_header = λ v. true;
  open_socket = λ url headers. some 0;
}

abbrev pub credentials : Credentials
credentials = record { key_id = codes "key"; signing_key = λ message. some (codes "signature") }

abbrev pub no_counts : Metrics
no_counts = record {
  messages = 0;
  bytes = 0;
  reconnects = 0;
  idle_timeouts = 0;
  lifecycle_events = 0;
  unparsed = 0;
  off_grid_prices = 0;
  desync_invalidations = 0;
  reconciliation_misses = 0;
  late_subscriptions = 0;
  snapshot_restarts = 0;
}

abbrev parse_example : Text → Option (ServerMessage sample_json.Value)
parse_example [] = none
parse_example (c ∷ s) =
    some (subscribed (record { id = none; msg = record { channel = c ∷ s; sid = 4 } }))

abbrev pub setup : Setup
setup = record {
  json = sample_json;
  parse_message = parse_example;
  w = writer;
  socket = line;
  mpsc = slot;
  channels = codes "orderbook_delta" ∷ [];
  convention = no_leg_pricing;
  shard_size = 2;
  idle_secs = 35;
}

abbrev events : List Event
events =
    reading (frame (text_frame (codes "trade"))) (pos 5)
    ∷ arrivals (codes "B" ∷ codes "C" ∷ [])
    ∷ reading (frame (text_frame [])) (pos 6)
    ∷ []

abbrev markets : List Text
markets = codes "A" ∷ codes "B" ∷ codes "A" ∷ []

abbrev opened : Connection writer line
opened = record { stream = 0; next_command_id = 1; sent = [] }

abbrev ended : Running setup × Option (Result WsError Unit)
unfolding run_subscribed
ended = run_subscribed setup markets events (fresh_state setup opened (none, no_metrics) no_counts)

runs :
    run_connection setup
      (codes "url")
      credentials
      (some 7)
      markets
      events
      (none, no_metrics)
      no_counts
    ≡ ok ended
unfolding run_connection
runs = refl

runs_on :
    run_connection setup
      (codes "url")
      credentials
      (some 7)
      markets
      events
      (none, no_metrics)
      no_counts
    ≡ ok (ended.0, none)
unfolding run_connection text_eq parse
runs_on = refl

run_connection_sound_example :
    IsSubscribed writer line
      (orderbook_channels (codes "orderbook_delta" ∷ []))
      no_leg_pricing
      ended.0.connection
      ended.0.books
run_connection_sound_example =
    run_connection_sound setup (codes "url") credentials (some 7) markets events (none, no_metrics)
      no_counts ended runs

run_connection_covers_example :
    contains_text (codes "C") (subscribed_in ended.0.connection.sent)
    ≡ contains_text (codes "C") (markets ++ (codes "B" ∷ codes "C" ∷ []))
run_connection_covers_example =
    run_connection_covers setup (codes "url") credentials (some 7) markets events (none, no_metrics)
      no_counts ended.0 runs_on (codes "C")

books_unreadable_example : All (λ e. any_levels e.1 ≡ none) ended.0.books
books_unreadable_example =
    books_unreadable setup (codes "url") credentials (some 7) markets events (none, no_metrics)
      no_counts ended runs

run_connection_offers_example :
    (h : Handled setup events (none, no_metrics) no_counts ended) × (ended.0.queue.1.offered + 0
      ≡ 0 + ended.0.metrics.messages)
run_connection_offers_example =
    run_connection_offers setup (codes "url") credentials (some 7) markets events (none, no_metrics)
      no_counts ended runs

counted_and_queued :
    (ended.0.queue.1.offered ≡ 2)
    × (ended.0.queue.1.dropped ≡ 1)
    × (subscribed_in ended.0.connection.sent ≡ codes "A" ∷ codes "B" ∷ codes "C" ∷ [])
unfolding run_subscribed text_eq parse
counted_and_queued = (refl, refl, refl)
