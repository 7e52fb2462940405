-- ===== src/Daemon/Reconciling/Subscribed.antt =====
-- `reconcile_task` and `run_connection` of bin/capture.rs together.
use kalshi_alpha.Prelude.{ℕ, ◌≡◌, ◌∙◌, true, Option, none, List, ◌++◌, All, Result, ok, ℤ, arith}
use kalshi_alpha.Prelude.Text.{Text}
use kalshi_alpha.Common.Ticker.{Ticker}
use kalshi_alpha.Ingest.Auth.{Credentials}
use kalshi_alpha.Ingest.Client.{RestError}
use kalshi_alpha.Ingest.Client.Discovery.{Json, DiscoveryPass, contains_text}
use kalshi_alpha.Ingest.Connection.Commands.{subscribed_in}
use kalshi_alpha.Ingest.Markets.{contains}
use kalshi_alpha.Store.Sink.{SinkMetrics}
use kalshi_alpha.Daemon.Subscribing.Fresh.{contains-append}
use kalshi_alpha.Daemon.Capture.{Metrics, Event, Setup, Running, run_connection}
use kalshi_alpha.Daemon.Capture.Turns.{arrived}
use kalshi_alpha.Daemon.Capture.Sound.{run_connection_covers}
use kalshi_alpha.Daemon.Reconciling.{Reconciler, start, ticks}
use kalshi_alpha.Daemon.Reconciling.Live.{IsCanonical, ticks-IsLive, reconcile_task_lem}

module _ (json : Json) (setup : Setup) where
  -- The state after the ticks of a run.
  abbrev pub ticked :
      List Text → ℤ → List (List (Result RestError (DiscoveryPass json)) × ℤ) → Reconciler
  ticked initial now passes = ticks json (start initial now) passes

  -- A connection that starts with the live markets after some ticks, and has been handed whatever
  -- later ticks have found, has subscribed while it runs to every market that the registry knows,
  -- when the initial markets that parse are the texts of their tickers.
  pub known_markets_subscribed :
      (initial : List Text) (now : ℤ)
      (before since : List (List (Result RestError (DiscoveryPass json)) × ℤ)) (url : Text)
      (credentials : Credentials) (clock : Option ℕ) (events : List Event)
      (queue : setup.mpsc.State × SinkMetrics) (metrics : Metrics) (r : Running setup)
      → All IsCanonical initial
      → run_connection setup url credentials clock
          (ticked initial now before).live_markets
          events
          queue
          metrics
        ≡ ok (r, none)
      → ((m : Text)
          → contains_text m (ticks json (ticked initial now before) since).sent ≡ true
          → contains_text m ((ticked initial now before).sent ++ arrived events) ≡ true)
      → (t : Ticker) → contains (ticks json (ticked initial now before) since).registry t ≡ true
      → contains_text t.text (subscribed_in r.connection.sent) ≡ true
  known_markets_subscribed initial now before since url credentials clock events queue metrics r c
        runs handed t known =
      let s = ticked initial now before in
      let i = reconcile_task_lem json initial now before c in
      let j = ticks-IsLive json initial s since i in
      run_connection_covers setup url credentials clock s.live_markets events queue metrics r runs
        t.text
      ∙ contains-append t.text s.live_markets (arrived events)
      ∙ ground (
        arith,
        j.known t known,
        j.live t.text,
        i.live t.text,
        handed t.text,
        contains-append t.text s.sent (arrived events),
      )
