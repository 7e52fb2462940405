-- ===== src/Daemon/Capture/Offers.antt =====
-- What a turn of the loop of `run_connection` of bin/capture.rs hands to the queue and counts.
use kalshi_alpha.Prelude.{
  ℕ, ◌+◌, ◌≡◌, refl, ap, ◌∙◌, Option, none, some, List, [], ◌∷◌, ◌++◌, length, Result, ok, err, ℤ,
  arith,
}
use kalshi_alpha.Prelude.Text.{Text, byte_len}
use kalshi_alpha.Ingest.Wire.{ServerMessage, market_lifecycle, event_lifecycle}
use kalshi_alpha.Ingest.Connection.{
  WsError, Connection, frame, read_failed, stream_ended, text_frame, ping, pong, binary, raw_frame,
  close_frame, next_message,
}
use kalshi_alpha.Store.Json.{Json}
use kalshi_alpha.Store.Encode.{StoreRecord}
use kalshi_alpha.Store.Sink.{
  Mpsc, Sent, accepted, full, closed, Offered, queued_record, dropped_record, writer_is_gone,
  SinkMetrics, count_sent, offer,
}
use kalshi_alpha.Daemon.Subscribing.{Books, subscribe_markets}
use kalshi_alpha.Daemon.Capture.{
  Metrics, orderbook_channels, Event, shut_down, silence, arrivals, reading, Message, Setup,
  Running, count_kind, record_of, note_control, count_message, after_offer, handle_message,
  on_arrivals, turn,
}

module _ {R : Type 0} (mpsc : Mpsc R) where
  -- Each record is offered once, in their order.
  abbrev pub offer_all : mpsc.State × SinkMetrics → List R → mpsc.State × SinkMetrics
  offer_all q [] = q
  offer_all q (r ∷ rs) = offer_all (offer mpsc q r).0 rs

  pub offer_all-append :
      (q : mpsc.State × SinkMetrics) (rs ts : List R)
      → offer_all q (rs ++ ts) ≡ offer_all (offer_all q rs) ts
  offer_all-append q [] ts = refl
  offer_all-append q (r ∷ rs) ts = offer_all-append (offer mpsc q r).0 rs ts

  counted_once :
      (m : SinkMetrics) (s : Sent)
      → (count_sent mpsc (record m { offered = m.offered + 1 }) s).0.offered ≡ m.offered + 1
  counted_once m accepted = refl
  counted_once m full = refl
  counted_once m closed = refl

  pub offered_each :
      (q : mpsc.State × SinkMetrics) (rs : List R)
      → (offer_all q rs).1.offered ≡ q.1.offered + length rs
  unfolding offer
  offered_each q [] = omega arith
  offered_each (q, m) (r ∷ rs) =
      omega (arith, offered_each (offer mpsc (q, m) r).0 rs, counted_once m (mpsc.try_send q r).1)

module _ (json : Json) (parse_message : Text → Option (ServerMessage json.Value)) where
  -- The record of a text frame: its text, its instant and the channel of its message.
  abbrev pub record_for : Text → ℤ → StoreRecord json
  record_for raw at =
      record_of json parse_message
        (record { received_at = at; raw = raw; parsed = parse_message raw })

  -- The records of the text frames among the events.
  abbrev pub records_in : List Event → List (StoreRecord json)
  records_in [] = []
  records_in (reading (frame (text_frame raw)) at ∷ es) = record_for raw at ∷ records_in es
  records_in (reading (frame ping) at ∷ es) = records_in es
  records_in (reading (frame pong) at ∷ es) = records_in es
  records_in (reading (frame binary) at ∷ es) = records_in es
  records_in (reading (frame raw_frame) at ∷ es) = records_in es
  records_in (reading (frame (close_frame why)) at ∷ es) = records_in es
  records_in (reading read_failed at ∷ es) = records_in es
  records_in (reading stream_ended at ∷ es) = records_in es
  records_in (shut_down ∷ es) = records_in es
  records_in (silence ∷ es) = records_in es
  records_in (arrivals markets ∷ es) = records_in es

  abbrev pub bytes_of : List (StoreRecord json) → ℕ
  bytes_of [] = 0
  bytes_of (r ∷ rs) = byte_len r.raw + bytes_of rs

  pub bytes_of-append :
      (rs ts : List (StoreRecord json)) → bytes_of (rs ++ ts) ≡ bytes_of rs + bytes_of ts
  bytes_of-append [] ts = omega arith
  bytes_of-append (r ∷ rs) ts = omega (arith, bytes_of-append rs ts)

  pub records_in-first :
      (e : Event) (es : List Event) → records_in (e ∷ es) ≡ records_in (e ∷ []) ++ records_in es
  records_in-first (reading (frame (text_frame raw)) at) es = refl
  records_in-first (reading (frame ping) at) es = refl
  records_in-first (reading (frame pong) at) es = refl
  records_in-first (reading (frame binary) at) es = refl
  records_in-first (reading (frame raw_frame) at) es = refl
  records_in-first (reading (frame (close_frame why)) at) es = refl
  records_in-first (reading read_failed at) es = refl
  records_in-first (reading stream_ended at) es = refl
  records_in-first shut_down es = refl
  records_in-first silence es = refl
  records_in-first (arrivals markets) es = refl

module _ (setup : Setup) where
  open setup use {json, parse_message, w, socket, mpsc, channels, convention, shard_size, idle_secs}

  abbrev pub State : Type 0
  State = Running setup

  abbrev pub Ended : Type 0
  Ended = State × Option (Result WsError Unit)

  -- The records were offered and counted.
  pub record HasOffered (rs : List (StoreRecord json)) (queue : mpsc.State × SinkMetrics)
      (metrics : Metrics) (queue' : mpsc.State × SinkMetrics) (metrics' : Metrics) : Type 0 where
    pub offered_once : queue' ≡ offer_all mpsc queue rs
    pub counted : metrics'.messages ≡ metrics.messages + length rs
    pub measured : metrics'.bytes ≡ metrics.bytes + bytes_of json parse_message rs

  abbrev pub Between : List (StoreRecord json) → State → State → Type 0
  Between rs s s' = HasOffered rs s.queue s.metrics s'.queue s'.metrics

  kind_counts :
      (o : Option (ServerMessage json.Value)) (m : Metrics)
      → ((count_kind json parse_message o m).messages ≡ m.messages)
        × ((count_kind json parse_message o m).bytes ≡ m.bytes)
  kind_counts none m = (refl, refl)
  kind_counts (some (market_lifecycle p)) m = (refl, refl)
  kind_counts (some (event_lifecycle p)) m = (refl, refl)
  kind_counts (some other) m = (refl, refl)

  offered_state :
      (s : State) (x : (mpsc.State × SinkMetrics) × Offered)
      → ((after_offer setup s x).0.queue ≡ x.0) × ((after_offer setup s x).0.metrics ≡ s.metrics)
  offered_state s (q, queued_record) = (refl, refl)
  offered_state s (q, dropped_record) = (refl, refl)
  offered_state s (q, writer_is_gone) = (refl, refl)

  handled_text :
      (raw : Text) (at : ℤ) (s : State)
      → Between
          (record_for json parse_message raw at ∷ [])
          s
          (turn setup (reading (frame (text_frame raw)) at) s).0
  unfolding turn handle_message next_message
  handled_text raw at s =
      let received : Message json parse_message = record {
        received_at = at;
        raw = raw;
        parsed = parse_message raw;
      } in
      let noted = record s {
        registry = note_control json parse_message received s.registry;
        metrics = count_message setup received s.metrics;
      } in
      let o = offered_state noted (offer mpsc s.queue (record_for json parse_message raw at)) in
      let k = kind_counts (parse_message raw) (record (s.metrics) {
        messages = s.metrics.messages + 1;
        bytes = s.metrics.bytes + byte_len raw;
      }) in
      record {
        offered_once = o.0;
        counted = ap (λ m. m.messages) o.1 ∙ k.0;
        measured = ap (λ m. m.bytes) o.1 ∙ k.1 ∙ omega arith;
      }

  pub unchanged : (s s' : State) → s'.queue ≡ s.queue → s'.metrics ≡ s.metrics → Between [] s s'
  unchanged s s' q m = record {
    offered_once = q;
    counted = ap (λ x. x.messages) m ∙ omega arith;
    measured = ap (λ x. x.bytes) m ∙ omega arith;
  }

  on_arrivals_counts :
      (s : State) (r : (Connection w socket × Books) × Result WsError ℕ)
      → Between [] s (on_arrivals setup s r).0
  on_arrivals_counts s ((c, books), ok n) = record {
    offered_once = refl;
    counted = omega arith;
    measured = omega arith;
  }
  on_arrivals_counts s ((c, books), err e) =
      unchanged s (record s { connection = c; books = books }) refl refl

  pub turn_offers :
      (e : Event) (s : State)
      → Between (records_in json parse_message (e ∷ [])) s (turn setup e s).0
  unfolding turn next_message
  turn_offers shut_down s = unchanged s s refl refl
  turn_offers silence s = record {
    offered_once = refl;
    counted = omega arith;
    measured = omega arith;
  }
  turn_offers (arrivals markets) s = on_arrivals_counts s (
      subscribe_markets w socket (orderbook_channels channels) convention shard_size markets
        (s.connection, s.books))
  turn_offers (reading (frame (text_frame raw)) at) s = handled_text raw at s
  turn_offers (reading (frame ping) at) s = unchanged s s refl refl
  turn_offers (reading (frame pong) at) s = unchanged s s refl refl
  turn_offers (reading (frame binary) at) s = unchanged s s refl refl
  turn_offers (reading (frame raw_frame) at) s = unchanged s s refl refl
  turn_offers (reading (frame (close_frame why)) at) s = unchanged s s refl refl
  turn_offers (reading read_failed at) s = unchanged s s refl refl
  turn_offers (reading stream_ended at) s = unchanged s s refl refl
