-- ===== src/Daemon/Capture/Sound.antt =====
-- The subscriptions and the books of a connection of bin/capture.rs.
use kalshi_alpha.Prelude.{
  ℕ, ◌≡◌, refl, sym, subst, ◌∙◌, Bool, true, false, ◌||◌, Option, none, some, List, [], ◌∷◌, ◌++◌,
  append-nil, All, All-imp, Result, ok, err, arith, Result-cases, inl, inr, ok-injective,
}
use kalshi_alpha.Prelude.Text.{Text, codes}
use kalshi_alpha.Common.Ticker.{Ticker}
use kalshi_alpha.Ingest.Auth.{Credentials}
use kalshi_alpha.Ingest.Book.AnyBook.{new_any, any_levels}
use kalshi_alpha.Ingest.Client.Discovery.{contains_text}
use kalshi_alpha.Ingest.Connection.{use_yes_price, WsError, Connection, connect, subscribe}
use kalshi_alpha.Ingest.Connection.Commands.{subscribed_in, Subscribed, subscribe_lem}
use kalshi_alpha.Store.Sink.{SinkMetrics}
use kalshi_alpha.Daemon.Subscribing.{
  Books, contains_key, open_books, markets_needing_subscription, subscribe_markets,
  ticker_or_invalid,
}
use kalshi_alpha.Daemon.Capture.Turns
use kalshi_alpha.Daemon.Capture.Turns.{arrived}
use kalshi_alpha.Daemon.Subscribing.Fresh.{contains-append}
use kalshi_alpha.Daemon.Subscribing.Once.{
  IsSubscribed, IsSubscribed-IsSubscribed, refused-IsSubscribed, subscribe_markets_lem,
}
use kalshi_alpha.Daemon.Capture.{
  Metrics, orderbook_channels, Event, shut_down, silence, arrivals, reading, Setup, turn,
  unless_ended, read_loop, after_markets, after_lifecycle, fresh_state, run_subscribed,
  run_connection,
}

new-unreadable : (t : Ticker) (use_yes : Bool) → any_levels (new_any t use_yes) ≡ none
unfolding any_levels new_any
new-unreadable t true = refl
new-unreadable t false = refl

module _ (setup : Setup) where
  open setup use {json, parse_message, w, socket, mpsc, channels, convention, shard_size, idle_secs}

  abbrev State : Type 0
  State = Turns.State setup

  abbrev Ended : Type 0
  Ended = Turns.Ended setup

  abbrev chosen : List Text
  chosen = orderbook_channels channels

  abbrev IsSound : State → Type 0
  IsSound s = IsSubscribed w socket chosen convention s.connection s.books

  abbrev Covers : List Text → State → Ended → Type 0
  Covers = Turns.Covers setup

  Covers-after :
      (first rest : List Text) (s s' : State) (x : Ended)
      → ((m : Text) → contains_key m s'.books ≡ contains_key m s.books || contains_text m first)
      → Covers rest s' x
      → Covers (first ++ rest) s x
  Covers-after first rest s s' (t, some end) f h = h
  Covers-after first rest s s' (t, none) f h =
      (h.0, λ m. ground (arith, h.1 m, f m, contains-append m first rest))

  unless_ended-Covers :
      (first rest : List Text) (s : State) (x : Ended) (next : State → Ended)
      → Covers first s x
      → ((s' : State) → IsSound s' → Covers rest s' (next s'))
      → Covers (first ++ rest) s (unless_ended setup next x)
  unless_ended-Covers first rest s (s', some end) next h k = h
  unless_ended-Covers first rest s (s', none) next h k =
      Covers-after first rest s s' (next s') h.1 (k s' h.0)

  arrived-first : (e : Event) (es : List Event) → arrived (e ∷ es) ≡ arrived (e ∷ []) ++ arrived es
  arrived-first shut_down es = refl
  arrived-first silence es = refl
  arrived-first (reading r at) es = refl
  arrived-first (arrivals markets) es = rw (append-nil markets)

  read_loop-Covers :
      (events : List Event) (s : State)
      → IsSound s
      → Covers (arrived events) s (read_loop setup events s)
  unfolding read_loop
  read_loop-Covers [] s i = (i, λ m. ground arith)
  read_loop-Covers (e ∷ es) s i = rw (arrived-first e es) (
      unless_ended-Covers (arrived (e ∷ [])) (arrived es) s (turn setup e s)
        (λ s'. read_loop setup es s') (Turns.turn-Covers setup e s i)
        (λ s' i'. read_loop-Covers es s' i'))

  after_markets-Covers :
      (markets rest : List Text) (s : State) (next : State → Ended)
      (r : (Connection w socket × Books) × Result WsError ℕ)
      → IsSubscribed w socket chosen convention r.0.0 r.0.1
      → ((m : Text) (n : ℕ)
          → r.1 ≡ ok n
          → contains_key m r.0.1 ≡ contains_key m s.books || contains_text m markets)
      → ((s' : State) → IsSound s' → Covers rest s' (next s'))
      → Covers (markets ++ rest) s (after_markets setup next s r)
  after_markets-Covers markets rest s next ((c, books), err e) i f k = i
  after_markets-Covers markets rest s next ((c, books), ok n) i f k =
      let s' = record s { connection = c; books = books } in
      Covers-after markets rest s s' (next s') (λ m. f m n refl) (k s' i)

  run_subscribed-Covers :
      (markets : List Text) (events : List Event) (s : State)
      → IsSound s
      → Covers (markets ++ arrived events) s (run_subscribed setup markets events s)
  unfolding run_subscribed open_books
  run_subscribed-Covers markets events s i =
      go (subscribe w socket (codes "market_lifecycle_v2" ∷ []) [] convention s.connection)
        (subscribe_lem w socket (codes "market_lifecycle_v2" ∷ []) [] convention s.connection)
    where
      next : State → Ended
      next = λ s'. read_loop setup events s'

      go :
          (r : Connection w socket × Result WsError ℕ)
          → Subscribed w socket (codes "market_lifecycle_v2" ∷ []) [] convention s.connection r
          → Covers (markets ++ arrived events) s (after_lifecycle setup next s markets r)
      go (c, err e) h =
          refused-IsSubscribed w socket chosen convention s.connection c s.books i h.0 h.1
      go (c, ok id) h =
          let i' : IsSubscribed w socket chosen convention c s.books =
            IsSubscribed-IsSubscribed w socket chosen convention (codes "market_lifecycle_v2" ∷ [])
              [] s.connection c s.books i tt (λ m e. cc) h.0 h.1 in
          let r = subscribe_markets w socket chosen convention shard_size markets (c, s.books) in
          let g =
            subscribe_markets_lem w socket chosen convention shard_size markets c s.books i' in
          after_markets-Covers markets (arrived events) s next r
            (Turns.GrownBy-IsSubscribed setup (markets_needing_subscription s.books markets) c r
              g.0)
            (Turns.covered-GrownBy setup markets c s.books r i' g.1 g.0)
            (λ s' i''. read_loop-Covers events s' i'')

  IsNew : Connection w socket → Type 0
  IsNew c = (c.sent ≡ []) × (c.next_command_id ≡ 1)

  connect-IsNew :
      (url : Text) (credentials : Credentials) (clock : Option ℕ) (c : Connection w socket)
      → connect w socket url credentials clock ≡ ok c
      → IsNew c
  unfolding connect IsNew
  connect-IsNew url credentials clock c h = ground arith

  fresh-IsSound :
      (c : Connection w socket) (queue : mpsc.State × SinkMetrics) (metrics : Metrics)
      → IsNew c
      → IsSound (fresh_state setup c queue metrics)
  unfolding IsNew contains_key
  fresh-IsSound c queue metrics h = record {
    unique = rw h.0 tt;
    covered = λ m. rw h.0 refl;
    numbered = rw (h.0, h.1) (omega arith);
    explicit = rw h.0 tt;
    untouched = tt;
  }

  run_connection-Covers :
      (url : Text) (credentials : Credentials) (clock : Option ℕ) (markets : List Text)
      (events : List Event) (queue : mpsc.State × SinkMetrics) (metrics : Metrics) (x : Ended)
      → run_connection setup url credentials clock markets events queue metrics ≡ ok x
      → (s : State) × (s.books ≡ []) × Covers (markets ++ arrived events) s x
  unfolding run_connection
  run_connection-Covers url credentials clock markets events queue metrics x h =
      elim (Result-cases (connect w socket url credentials clock)) [
        | inl (c, e) ↦
            let s = fresh_state setup c queue metrics in
            let same = rw (e, run_connection) at h in
            (
              s,
              refl,
              subst (Covers (markets ++ arrived events) s) (ok-injective _ _ same) (
                  run_subscribed-Covers markets events s
                    (fresh-IsSound c queue metrics (connect-IsNew url credentials clock c e))),
            )
        | inr (y, e) ↦ let refused = rw (e, run_connection) at h in absurd (cc)
      ]

  end-IsSound : (markets : List Text) (s : State) (x : Ended) → Covers markets s x → IsSound x.0
  end-IsSound markets s (t, none) h = h.0
  end-IsSound markets s (t, some e) h = h

  -- Whatever markets, events and failures a connection meets, in the state that it leaves it has
  -- subscribed to each market once and has one book for each, the ids of its commands ascend, and
  -- each subscription to the order book states the convention, and no other does.
  pub run_connection_sound :
      (url : Text) (credentials : Credentials) (clock : Option ℕ) (markets : List Text)
      (events : List Event) (queue : mpsc.State × SinkMetrics) (metrics : Metrics) (x : Ended)
      → run_connection setup url credentials clock markets events queue metrics ≡ ok x
      → IsSubscribed w socket chosen convention x.0.connection x.0.books
  run_connection_sound url credentials clock markets events queue metrics x h =
      let (s, e, k) =
        run_connection-Covers url credentials clock markets events queue metrics x h in
      end-IsSound (markets ++ arrived events) s x k

  -- While a connection runs, the markets that it has subscribed to are those that it was started
  -- with and those that reconciliation has handed over since.
  pub run_connection_covers :
      (url : Text) (credentials : Credentials) (clock : Option ℕ) (markets : List Text)
      (events : List Event) (queue : mpsc.State × SinkMetrics) (metrics : Metrics) (s : State)
      → run_connection setup url credentials clock markets events queue metrics ≡ ok (s, none)
      → (m : Text)
      → contains_text m (subscribed_in s.connection.sent)
        ≡ contains_text m (markets ++ arrived events)
  unfolding contains_key
  run_connection_covers url credentials clock markets events queue metrics s h m =
      let (t, e, k) =
        run_connection-Covers url credentials clock markets events queue metrics (s, none) h in
      sym (k.0.covered m) ∙ k.1 m ∙ rw e refl

  -- No book of a connection is ever readable, whatever snapshots and deltas the connection reads.
  pub books_unreadable :
      (url : Text) (credentials : Credentials) (clock : Option ℕ) (markets : List Text)
      (events : List Event) (queue : mpsc.State × SinkMetrics) (metrics : Metrics) (x : Ended)
      → run_connection setup url credentials clock markets events queue metrics ≡ ok x
      → All (λ e. any_levels e.1 ≡ none) x.0.books
  books_unreadable url credentials clock markets events queue metrics x h =
      All-imp
        (λ e (same : e.1 ≡ new_any (ticker_or_invalid e.0) (use_yes_price convention)).
          rw same (new-unreadable (ticker_or_invalid e.0) (use_yes_price convention)))
        x.0.books
        (run_connection_sound url credentials clock markets events queue metrics x h).untouched
