-- ===== src/Daemon/Capture/Received.antt =====
-- What a connection of bin/capture.rs hands to the queue and counts from its start to its end.
use kalshi_alpha.Prelude.{
  ℕ, ◌+◌, ◌≡◌, refl, sym, ap, subst, ◌∙◌, Option, none, some, List, [], ◌∷◌, ◌++◌, length-append,
  Result, ok, err, arith, Result-cases, inl, inr, ok-injective,
}
use kalshi_alpha.Prelude.Text.{Text, codes}
use kalshi_alpha.Ingest.Auth.{Credentials}
use kalshi_alpha.Ingest.Connection.{WsError, Connection, connect, subscribe}
use kalshi_alpha.Store.Encode.{StoreRecord}
use kalshi_alpha.Store.Sink.{SinkMetrics}
use kalshi_alpha.Daemon.Subscribing.{Books, subscribe_markets}
use kalshi_alpha.Daemon.Capture.{
  Metrics, orderbook_channels, Event, Setup, Running, turn, unless_ended, read_loop, after_markets,
  after_lifecycle, fresh_state, run_subscribed, run_connection,
}
use kalshi_alpha.Daemon.Capture.Offers
use kalshi_alpha.Daemon.Capture.Offers.{
  offer_all, offer_all-append, offered_each, records_in, records_in-first, bytes_of,
  bytes_of-append, HasOffered, turn_offers,
}
use kalshi_alpha.Daemon.Capture.Described.{Records, records_in-Records}

module _ (setup : Setup) where
  open setup use {json, parse_message, w, socket, mpsc, channels, convention, shard_size, idle_secs}

  abbrev State : Type 0
  State = Running setup

  abbrev Ended : Type 0
  Ended = State × Option (Result WsError Unit)

  abbrev Between : List (StoreRecord json) → State → State → Type 0
  Between rs s s' = HasOffered setup rs s.queue s.metrics s'.queue s'.metrics

  join :
      (rs ts : List (StoreRecord json)) (s s' t : State)
      → Between rs s s'
      → Between ts s' t
      → Between (rs ++ ts) s t
  join rs ts s s' t h k = record {
    offered_once =
        k.offered_once
        ∙ ap (λ q. offer_all mpsc q ts) h.offered_once
        ∙ sym (offer_all-append mpsc s.queue rs ts);
    counted = omega (arith, h.counted, k.counted, length-append rs ts);
    measured = omega (arith, h.measured, k.measured, bytes_of-append json parse_message rs ts);
  }

  -- A loop that has not ended has left no event.
  abbrev pub Left : Option (Result WsError Unit) → List Event → Type 0
  Left none rest = rest ≡ []
  Left (some end) rest = Unit

  -- Some first events were handled: all, unless the function has returned. The records of their
  -- text frames were offered, once each and in their order, and counted.
  pub record Handled (events : List Event) (queue : mpsc.State × SinkMetrics) (metrics : Metrics)
      (x : Ended) : Type 0 where
    pub handled : List Event
    pub rest : List Event
    pub split : events ≡ handled ++ rest
    pub left : Left x.1 rest
    pub described : Records setup handled (records_in json parse_message handled)
    pub offers :
        HasOffered setup (records_in json parse_message handled) queue metrics x.0.queue x.0.metrics

  abbrev HandledFrom : List Event → State → Ended → Type 0
  HandledFrom events s x = Handled events s.queue s.metrics x

  unless_ended-Handled :
      (e : Event) (es : List Event) (s : State) (x : Ended) (next : State → Ended)
      → Between (records_in json parse_message (e ∷ [])) s x.0
      → ((s' : State) → HandledFrom es s' (next s'))
      → HandledFrom (e ∷ es) s (unless_ended setup next x)
  unless_ended-Handled e es s (s', some end) next h k = record {
    handled = e ∷ [];
    rest = es;
    split = refl;
    left = tt;
    described = records_in-Records setup (e ∷ []);
    offers = h;
  }
  unless_ended-Handled e es s (s', none) next h k =
      let later = k s' in
      record {
        handled = e ∷ later.handled;
        rest = later.rest;
        split = ap (λ l. e ∷ l) later.split;
        left = later.left;
        described = records_in-Records setup (e ∷ later.handled);
        offers = rw (records_in-first json parse_message e later.handled) (
            join (records_in json parse_message (e ∷ []))
              (records_in json parse_message later.handled) s s' (next s').0 h later.offers);
      }

  none_yet :
      (events : List Event) (s s' : State) (end : Result WsError Unit)
      → s'.queue ≡ s.queue
      → s'.metrics ≡ s.metrics
      → HandledFrom events s (s', some end)
  none_yet events s s' end q m = record {
    handled = [];
    rest = events;
    split = refl;
    left = tt;
    described = refl;
    offers = Offers.unchanged setup s s' q m;
  }

  read_loop-Handled :
      (events : List Event) (s : State) → HandledFrom events s (read_loop setup events s)
  unfolding read_loop
  read_loop-Handled [] s = record {
    handled = [];
    rest = [];
    split = refl;
    left = refl;
    described = refl;
    offers = Offers.unchanged setup s s refl refl;
  }
  read_loop-Handled (e ∷ es) s =
      unless_ended-Handled e es s (turn setup e s) (λ s'. read_loop setup es s')
        (turn_offers setup e s) (λ s'. read_loop-Handled es s')

  after_markets-Handled :
      (events : List Event) (s : State) (r : (Connection w socket × Books) × Result WsError ℕ)
      → HandledFrom events s (after_markets setup (λ s'. read_loop setup events s') s r)
  after_markets-Handled events s ((c, books), err e) =
      none_yet events s (record s { connection = c; books = books }) (err e) refl refl
  after_markets-Handled events s ((c, books), ok n) =
      read_loop-Handled events (record s { connection = c; books = books })

  after_lifecycle-Handled :
      (markets : List Text) (events : List Event) (s : State)
      (r : Connection w socket × Result WsError ℕ)
      → HandledFrom events s (after_lifecycle setup (λ s'. read_loop setup events s') s markets r)
  after_lifecycle-Handled markets events s (c, err e) =
      none_yet events s (record s { connection = c }) (err e) refl refl
  after_lifecycle-Handled markets events s (c, ok id) = after_markets-Handled events s (
      subscribe_markets w socket (orderbook_channels channels) convention shard_size markets
        (c, s.books))

  -- Of the events of a connection some first ones are handled, and all of them unless it returns:
  -- each text frame among them is offered to the queue once, in the order of the frames, with its
  -- text, its instant, its JSON value where it has one and the channel whose name is that of its kind
  -- of message, and nothing else is; the frames and their bytes are counted, and the queue counts as
  -- many offers.
  pub run_connection_offers :
      (url : Text) (credentials : Credentials) (clock : Option ℕ) (markets : List Text)
      (events : List Event) (queue : mpsc.State × SinkMetrics) (metrics : Metrics) (x : Ended)
      → run_connection setup url credentials clock markets events queue metrics ≡ ok x
      → (h : Handled events queue metrics x) × (x.0.queue.1.offered + metrics.messages
          ≡ queue.1.offered + x.0.metrics.messages)
  unfolding run_connection run_subscribed
  run_connection_offers url credentials clock markets events queue metrics x h =
      elim (Result-cases (connect w socket url credentials clock)) [
        | inl (c, e) ↦
            let s = fresh_state setup c queue metrics in
            let same = rw (e, run_connection) at h in
            let all = subst (HandledFrom events s) (ok-injective _ _ same) (
              after_lifecycle-Handled markets events s
                (subscribe w socket (codes "market_lifecycle_v2" ∷ []) [] convention c)) in
            (
              all,
              omega (
                arith,
                ap (λ q. q.1.offered) all.offers.offered_once,
                offered_each mpsc queue (records_in json parse_message all.handled),
                all.offers.counted,
              ),
            )
        | inr (y, e) ↦ let refused = rw (e, run_connection) at h in absurd (cc)
      ]
