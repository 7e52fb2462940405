-- ===== src/Daemon/Capture/Turns.antt =====
-- What a turn of the loop of `run_connection` of bin/capture.rs does to the subscriptions.
use kalshi_alpha.Prelude.{
  ℕ, ◌≡◌, refl, ap, not, ◌&&◌, ◌||◌, Option, none, some, List, [], ◌∷◌, ◌++◌, append-nil, Result,
  ok, err, arith,
}
use kalshi_alpha.Prelude.Text.{Text}
use kalshi_alpha.Ingest.Client.Discovery.{contains_text}
use kalshi_alpha.Ingest.Connection.{WsError, Connection, next_message}
use kalshi_alpha.Ingest.Connection.Commands.{subscribed_in}
use kalshi_alpha.Store.Sink.{
  Offered, queued_record, dropped_record, writer_is_gone, SinkMetrics, offer,
}
use kalshi_alpha.Daemon.Subscribing.{
  Books, contains_key, markets_needing_subscription, subscribe_markets,
}
use kalshi_alpha.Daemon.Subscribing.Fresh.{contains-append}
use kalshi_alpha.Daemon.Subscribing.Once.{IsSubscribed, GrownBy, subscribe_markets_lem}
use kalshi_alpha.Daemon.Capture.{
  orderbook_channels, Event, shut_down, silence, arrivals, reading, Message, Setup, Running,
  after_offer, handle_message, record_of, note_control, count_message, on_read, on_arrivals, turn,
}

-- The markets that reconciliation hands over.
abbrev pub arrived : List Event → List Text
arrived [] = []
arrived (shut_down ∷ es) = arrived es
arrived (silence ∷ es) = arrived es
arrived (arrivals markets ∷ es) = markets ++ arrived es
arrived (reading r at ∷ es) = arrived es

module _ (setup : Setup) where
  open setup use {json, parse_message, w, socket, mpsc, channels, convention, shard_size, idle_secs}

  abbrev pub State : Type 0
  State = Running setup

  abbrev pub Ended : Type 0
  Ended = State × Option (Result WsError Unit)

  abbrev pub chosen : List Text
  chosen = orderbook_channels channels

  abbrev pub IsSound : State → Type 0
  IsSound s = IsSubscribed w socket chosen convention s.connection s.books

  -- The state is sound; while the loop runs, the markets with a book are those and the ones before.
  abbrev pub Covers : List Text → State → Ended → Type 0
  Covers markets s (s', none) =
      IsSound s'
      × ((m : Text) → contains_key m s'.books ≡ contains_key m s.books || contains_text m markets)
  Covers markets s (s', some end) = IsSound s'

  kept-Covers :
      (s s' : State) (end : Option (Result WsError Unit))
      → IsSound s
      → s'.connection ≡ s.connection
      → s'.books ≡ s.books
      → Covers [] s (s', end)
  kept-Covers s s' (some e) i c b = rw (c, b) i
  kept-Covers s s' none i c b = (rw (c, b) i, λ m. rw b (ground arith))

  after_offer-Covers :
      (s t : State) (x : (mpsc.State × SinkMetrics) × Offered)
      → IsSound s
      → t.connection ≡ s.connection
      → t.books ≡ s.books
      → Covers [] s (after_offer setup t x)
  after_offer-Covers s t (q, queued_record) i c b =
      kept-Covers s (record t { queue = q }) none i c b
  after_offer-Covers s t (q, dropped_record) i c b =
      kept-Covers s (record t { queue = q }) none i c b
  after_offer-Covers s t (q, writer_is_gone) i c b =
      kept-Covers s (record t { queue = q }) (some (ok tt)) i c b

  on_read-Covers :
      (r : Result WsError (Option (Message json parse_message))) (s : State)
      → IsSound s
      → Covers [] s (on_read setup r s)
  unfolding handle_message
  on_read-Covers (err e) s i = i
  on_read-Covers (ok none) s i = kept-Covers s s none i refl refl
  on_read-Covers (ok (some received)) s i =
      after_offer-Covers s
        (record s {
          registry = note_control json parse_message received s.registry;
          metrics = count_message setup received s.metrics;
        })
        (offer mpsc s.queue (record_of json parse_message received)) i refl refl

  pub covered-GrownBy :
      (markets : List Text) (c : Connection w socket) (books : Books)
      (r : (Connection w socket × Books) × Result WsError ℕ)
      → IsSubscribed w socket chosen convention c books
      → ((m : Text)
          → contains_text m (markets_needing_subscription books markets)
            ≡ (contains_text m markets && not (contains_key m books)))
      → GrownBy w socket chosen convention (markets_needing_subscription books markets) c r
      → (m : Text) (n : ℕ) → r.1 ≡ ok n
      → contains_key m r.0.1 ≡ contains_key m books || contains_text m markets
  covered-GrownBy markets c books ((c', books'), err e) i f g m n h = cc
  covered-GrownBy markets c books ((c', books'), ok k) i f (same, (i', grown)) m n h = ground (
    arith,
    i'.covered m,
    ap (contains_text m) grown,
    contains-append m (subscribed_in c.sent) (markets_needing_subscription books markets),
    f m,
    i.covered m,
  )

  pub GrownBy-IsSubscribed :
      (fresh : List Text) (c : Connection w socket)
      (r : (Connection w socket × Books) × Result WsError ℕ)
      → GrownBy w socket chosen convention fresh c r
      → IsSubscribed w socket chosen convention r.0.0 r.0.1
  GrownBy-IsSubscribed fresh c (s, ok k) g = g.1.0
  GrownBy-IsSubscribed fresh c (s, err e) g = g

  on_arrivals-Covers :
      (markets : List Text) (s : State) (r : (Connection w socket × Books) × Result WsError ℕ)
      → IsSubscribed w socket chosen convention r.0.0 r.0.1
      → ((m : Text) (n : ℕ)
          → r.1 ≡ ok n
          → contains_key m r.0.1 ≡ contains_key m s.books || contains_text m markets)
      → Covers markets s (on_arrivals setup s r)
  on_arrivals-Covers markets s ((c, books), ok n) i k = (i, λ m. k m n refl)
  on_arrivals-Covers markets s ((c, books), err e) i k = i

  pub turn-Covers :
      (e : Event) (s : State) → IsSound s → Covers (arrived (e ∷ [])) s (turn setup e s)
  unfolding turn
  turn-Covers shut_down s i = i
  turn-Covers silence s i = i
  turn-Covers (reading r at) s i = on_read-Covers (next_message parse_message r at) s i
  turn-Covers (arrivals markets) s i =
      let r =
        subscribe_markets w socket chosen convention shard_size markets (s.connection, s.books) in
      let h =
        subscribe_markets_lem w socket chosen convention shard_size markets s.connection s.books
          i in
      rw (append-nil markets) (
        on_arrivals-Covers markets s r
          (GrownBy-IsSubscribed (markets_needing_subscription s.books markets) s.connection r h.0)
          (covered-GrownBy markets s.connection s.books r i h.1 h.0))
