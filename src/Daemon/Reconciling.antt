-- ===== src/Daemon/Reconciling.antt =====
-- `reconcile_task` of bin/capture.rs. A `BTreeSet` is the list of its entries, in an order that
-- nothing here depends on; what `discover_markets` answers for each series is the input of a tick.
pub mod Live
pub mod Subscribed
pub mod Examples
use kalshi_alpha.Prelude.{
  ℕ, ◌+◌, Bool, true, false, List, [], ◌∷◌, ◌++◌, map, length, if◌then◌else◌, Result, ok, err, ℤ,
}
use kalshi_alpha.Prelude.Text.{Text}
use kalshi_alpha.Common.Ticker.{Ticker, TickerError, parse}
use kalshi_alpha.Ingest.Client.{RestError}
use kalshi_alpha.Ingest.Client.Discovery.{Market, Json, DiscoveryPass, contains_text}
use kalshi_alpha.Ingest.Markets.{
  MarketRegistry, Reconciliation, empty_registry, observe_startup, reconcile, is_clean,
}

-- `filter_map(|t| Ticker::parse(t).ok())`
abbrev pub keep_ok : Result TickerError Ticker → List Ticker → List Ticker
keep_ok (ok t) ts = t ∷ ts
keep_ok (err e) ts = ts

unfoldable pub parse_each : List Text → List Ticker
unfolding parse
parse_each [] = []
parse_each (m ∷ ms) = keep_ok (parse m) (parse_each ms)

-- `filter(|t| guard.insert(t.clone()))`, with the set that it leaves.
unfoldable pub insert_new : List Text → List Text → List Text × List Text
insert_new [] live = (live, [])
insert_new (m ∷ ms) live =
    let known = contains_text m live in
    let (live', newly) = insert_new ms (if known then live else m ∷ live) in
    (live', if known then newly else m ∷ newly)

-- `sent` is no variable of the source: what was handed to the connections, for the theorems.
pub record Reconciler : Type 0 where
  pub registry : MarketRegistry
  pub live_markets : List Text
  pub reconciliation_misses : ℕ
  pub sent : List Text

-- The state before the first tick, with the set that `run_capture` builds.
unfoldable pub start : List Text → ℤ → Reconciler
unfolding parse_each observe_startup insert_new
start initial now = record {
  registry = (observe_startup empty_registry (parse_each initial) now).0;
  live_markets = (insert_new initial []).0;
  reconciliation_misses = 0;
  sent = [];
}

module _ (json : Json) where
  -- The crawl of the series: a failed one is logged.
  unfoldable pub seen_in : List (Result RestError (DiscoveryPass json)) → List Ticker
  unfolding parse_each
  seen_in [] = []
  seen_in (err e ∷ passes) = seen_in passes
  seen_in (ok pass ∷ passes) = parse_each (map (λ m. m.ticker) pass.markets) ++ seen_in passes

  -- The end of a tick, from what the registry answers.
  abbrev pub on_result : Reconciler → MarketRegistry × Reconciliation → Reconciler
  on_result s (registry, result) =
      let (live, newly) = insert_new (map (λ t. t.text) result.newly_known) s.live_markets in
      let misses = s.reconciliation_misses + length result.missed_by_live_path in
      let missed : Reconciler = record {
        registry = registry;
        live_markets = live;
        reconciliation_misses = misses;
        sent = s.sent ++ newly;
      } in
      if is_clean result then record s { registry = registry } else missed

  unfoldable pub tick : Reconciler → List (Result RestError (DiscoveryPass json)) → ℤ → Reconciler
  unfolding seen_in reconcile is_clean insert_new
  tick s passes now = on_result s (reconcile s.registry (seen_in passes) now)

  abbrev pub ticks :
      Reconciler → List (List (Result RestError (DiscoveryPass json)) × ℤ) → Reconciler
  ticks s [] = s
  ticks s ((passes, now) ∷ more) = ticks (tick s passes now) more
