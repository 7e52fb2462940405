-- ===== src/Ingest/Markets.antt =====
-- crates/ingest/src/rest.rs: the registry of known markets and its reconciliation with a discovery
-- pass. A `HashMap` is the list of its entries, and an instant its nanoseconds since the epoch.
pub mod Reconcile
pub mod Examples
use kalshi_alpha.Prelude.{
  ℕ, Bool, true, false, ◌||◌, not, Option, none, some, List, [], ◌∷◌, ◌++◌, map, length,
  if◌then◌else◌, ℤ,
}
use kalshi_alpha.Prelude.Text.{text_eq}
use kalshi_alpha.Common.Ticker.{Ticker}

pub data LearnedVia : Type 0 where
  startup_discovery lifecycle reconciliation : LearnedVia

pub record KnownMarket : Type 0 where
  pub ticker : Ticker
  pub learned_via : LearnedVia
  pub first_seen_at : ℤ

pub record MarketRegistry : Type 0 where
  pub known : List (Ticker × KnownMarket)

pub record Reconciliation : Type 0 where
  pub missed_by_live_path : List Ticker
  pub newly_known : List Ticker

abbrev pub eq_ticker : Ticker → Ticker → Bool
eq_ticker t u = text_eq t.text u.text

-- `HashMap::get`
unfoldable pub get_known : List (Ticker × KnownMarket) → Ticker → Option KnownMarket
get_known [] t = none
get_known ((u, k) ∷ m) t = if eq_ticker u t then some k else get_known m t

abbrev pub is_some_known : Option KnownMarket → Bool
is_some_known none = false
is_some_known (some k) = true

abbrev pub is_empty_list : List Ticker → Bool
is_empty_list [] = true
is_empty_list (t ∷ ts) = false

abbrev pub empty_registry : MarketRegistry
empty_registry = record { known = [] }

unfoldable pub get : MarketRegistry → Ticker → Option KnownMarket
unfolding get_known
get r t = get_known r.known t

unfoldable pub contains : MarketRegistry → Ticker → Bool
unfolding get_known
contains r t = is_some_known (get_known r.known t)

unfoldable pub len : MarketRegistry → ℕ
len r = length r.known

unfoldable pub tickers : MarketRegistry → List Ticker
tickers r = map (λ e. e.0) r.known

unfoldable pub insert : MarketRegistry → Ticker → LearnedVia → ℤ → MarketRegistry × Bool
unfolding contains
insert r t via at =
    let market : KnownMarket = record { ticker = t; learned_via = via; first_seen_at = at } in
    if contains r t then (r, false) else (record { known = (t, market) ∷ r.known }, true)

unfoldable pub observe_lifecycle : MarketRegistry → Ticker → ℤ → MarketRegistry × Bool
unfolding insert
observe_lifecycle r t at = insert r t lifecycle at

-- The loop of `observe_startup`, with the tickers added so far.
unfoldable pub startup_loop :
    List Ticker → ℤ → MarketRegistry → List Ticker → MarketRegistry × List Ticker
unfolding insert
startup_loop [] at r added = (r, added)
startup_loop (t ∷ ts) at r added =
    let (r', is_new) = insert r t startup_discovery at in
    startup_loop ts at r' (if is_new then added ++ (t ∷ []) else added)

unfoldable pub observe_startup : MarketRegistry → List Ticker → ℤ → MarketRegistry × List Ticker
unfolding startup_loop
observe_startup r ts at = startup_loop ts at r []

-- The loop of `reconcile`, with the result so far.
unfoldable pub reconcile_loop :
    List Ticker → ℤ → MarketRegistry → Reconciliation → MarketRegistry × Reconciliation
unfolding insert
reconcile_loop [] at r result = (r, result)
reconcile_loop (t ∷ ts) at r result =
    let (r', is_new) = insert r t reconciliation at in
    let grown : Reconciliation = record {
      missed_by_live_path = result.missed_by_live_path ++ (t ∷ []);
      newly_known = result.newly_known ++ (t ∷ []);
    } in
    reconcile_loop ts at r' (if is_new then grown else result)

unfoldable pub reconcile : MarketRegistry → List Ticker → ℤ → MarketRegistry × Reconciliation
unfolding reconcile_loop
reconcile r ts at = reconcile_loop ts at r (record { missed_by_live_path = []; newly_known = [] })

unfoldable pub is_clean : Reconciliation → Bool
is_clean result = is_empty_list result.missed_by_live_path
