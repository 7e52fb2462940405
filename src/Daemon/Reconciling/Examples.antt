-- ===== src/Daemon/Reconciling/Examples.antt =====
-- Two ticks: the first finds a market that was not known, and a series that cannot be crawled.
use kalshi_alpha.Prelude.{
  ◌≡◌, refl, true, Option, none, some, subst, List, [], ◌∷◌, All, Result, ok, err, ℤ, pos,
  ok-injective, ap, sym,
}
use kalshi_alpha.Prelude.Text.{Text, codes, text_eq}
use kalshi_alpha.Common.Ticker.{Ticker, parse}
use kalshi_alpha.Ingest.Client.{RestError, exhausted}
use kalshi_alpha.Ingest.Client.Discovery.{Market, DiscoveryPass, contains_text}
use kalshi_alpha.Ingest.Client.Examples.{json}
use kalshi_alpha.Ingest.Connection.{WsError}
use kalshi_alpha.Ingest.Connection.Commands.{subscribed_in}
use kalshi_alpha.Ingest.Markets.{contains}
use kalshi_alpha.Store.Sink.{no_metrics}
use kalshi_alpha.Daemon.Capture.{
  Event, arrivals, Running, fresh_state, run_subscribed, run_connection,
}
use kalshi_alpha.Daemon.Capture.Examples.{setup, credentials, no_counts}
use kalshi_alpha.Daemon.Reconciling.Subscribed.{known_markets_subscribed}
use kalshi_alpha.Daemon.Reconciling.{start, ticks}
use kalshi_alpha.Daemon.Reconciling.Live.{IsCanonical, IsLive, reconcile_task_lem}

abbrev market_of : Text → Market
market_of t = record {
  ticker = t;
  event_ticker = none;
  status = none;
  open_time = none;
  close_time = none;
  price_level_structure = none;
  price_ranges = record { bands = [] };
}

abbrev pass_of : List Market → DiscoveryPass json
pass_of found = record {
  started_at = pos 0;
  finished_at = pos 0;
  cursors = [];
  markets = found;
  raw_markets = [];
}

abbrev passes : List (List (Result RestError (DiscoveryPass json)) × ℤ)
passes =
    (
      ok (pass_of (market_of (codes "KXA") ∷ market_of (codes "KXB") ∷ []))
          ∷ err (exhausted [] 6)
          ∷ [],
      pos 2,
    )
    ∷ (ok (pass_of (market_of (codes "KXB") ∷ [])) ∷ [], pos 3)
    ∷ []

canonical : All IsCanonical (codes "KXA" ∷ [])
unfolding parse
canonical = ((λ t h. ap (λ u. u.text) (sym (ok-injective _ _ h))), tt)

reconcile_task_lem_example :
    IsLive (codes "KXA" ∷ []) (ticks json (start (codes "KXA" ∷ []) (pos 1)) passes)
reconcile_task_lem_example = reconcile_task_lem json (codes "KXA" ∷ []) (pos 1) passes canonical

handed_over_once : (ticks json (start (codes "KXA" ∷ []) (pos 1)) passes).sent ≡ codes "KXB" ∷ []
unfolding start kalshi_alpha.Daemon.Reconciling.tick text_eq parse
handed_over_once = refl

abbrev handed_over : List Event
handed_over = arrivals (codes "KXB" ∷ []) ∷ []

abbrev kxb : Ticker
kxb = record { text = codes "KXB" }

abbrev connected : Running setup × Option (Result WsError Unit)
unfolding run_subscribed start
connected = run_subscribed setup (start (codes "KXA" ∷ []) (pos 1)).live_markets handed_over (
    fresh_state setup (record { stream = 0; next_command_id = 1; sent = [] }) (none, no_metrics)
      no_counts)

still_runs :
    run_connection setup
      (codes "url")
      credentials
      (some 7)
      (start (codes "KXA" ∷ []) (pos 1)).live_markets
      handed_over
      (none, no_metrics)
      no_counts
    ≡ ok (connected.0, none)
unfolding run_connection start text_eq parse
still_runs = refl

kxb_known : contains (ticks json (start (codes "KXA" ∷ []) (pos 1)) passes).registry kxb ≡ true
unfolding start kalshi_alpha.Daemon.Reconciling.tick text_eq parse contains
kxb_known = refl

known_markets_subscribed_example :
    contains_text (codes "KXB") (subscribed_in connected.0.connection.sent) ≡ true
unfolding start text_eq
known_markets_subscribed_example =
    known_markets_subscribed json setup (codes "KXA" ∷ []) (pos 1) [] passes (codes "url")
      credentials (some 7) handed_over (none, no_metrics) no_counts connected.0 canonical still_runs
      (λ m h. subst (λ l. contains_text m l ≡ true) handed_over_once h) kxb kxb_known
