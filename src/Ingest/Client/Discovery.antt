-- ===== src/Ingest/Client/Discovery.antt =====
-- Market discovery in crates/ingest/src/rest.rs: the crawl of the pages of each status, and the grid
-- observations that it gives. A JSON value and its parsers are parameters. The loop over pages runs
-- on fuel, which counts the pages of a status.
pub mod Unique
pub mod Ending
use kalshi_alpha.Prelude.{
  ℕ, zero, suc, ◌+◌, Bool, true, false, ◌||◌, Option, none, some, List, [], ◌∷◌, ◌++◌, map, length,
  if◌then◌else◌, Result, ok, err, ℤ,
}
use mathlib.Core.Option
use kalshi_alpha.Prelude.Text.{Text, codes, text_eq}
use kalshi_alpha.Common.Ticker.{Ticker, TickerError, parse}
use kalshi_alpha.Common.Ranges.{PriceRanges}
use kalshi_alpha.Ingest.Client.{RestError, RestConfig, ResponseMeta, Network, Query, get_json}

pub record Market : Type 0 where
  pub ticker : Text
  pub event_ticker : Option Text
  pub status : Option Text
  pub open_time : Option ℤ
  pub close_time : Option ℤ
  pub price_level_structure : Option Text
  pub price_ranges : PriceRanges

-- What the code uses of JSON: a value as a market, the body of a page as its values and cursor, and
-- the text of the field `price_ranges`.
pub record Json : Type 1 where
  pub Value : Type 0
  pub as_market : Value → Option Market
  pub as_page : Text → Option (List Value × Text)
  pub price_ranges_text : Value → Option Text

abbrev pub contains_text : Text → List Text → Bool
contains_text t [] = false
contains_text t (s ∷ ss) = text_eq s t || contains_text t ss

abbrev pub is_empty_text : Text → Bool
is_empty_text [] = true
is_empty_text (c ∷ s) = false

pub data PriceRangeSource : Type 0 where
  discovery lifecycle : PriceRangeSource

pub record PriceRangeObservation : Type 0 where
  pub market : Ticker
  pub observed_at : ℤ
  pub source : PriceRangeSource
  pub effective_at : Option ℤ
  pub price_level_structure : Option Text
  pub ranges : PriceRanges
  pub ranges_raw : Text

abbrev pub text_or_empty : Option Text → Text
text_or_empty none = []
text_or_empty (some t) = t

module _ (json : Json) where
  -- The collections of a pass so far; `seen` is a `HashSet`.
  pub record Crawl : Type 0 where
    pub cursors : List Text
    pub markets : List Market
    pub raw_markets : List json.Value
    pub seen : List Text

  pub record DiscoveryPass : Type 0 where
    pub started_at : ℤ
    pub finished_at : ℤ
    pub cursors : List Text
    pub markets : List Market
    pub raw_markets : List json.Value

  -- A value of a page, as it parses.
  abbrev pub take_market : json.Value → Option Market → Crawl → Crawl
  take_market value none found = found
  take_market value (some market) found =
      if contains_text market.ticker found.seen then found else record found {
        markets = found.markets ++ (market ∷ []);
        raw_markets = found.raw_markets ++ (value ∷ []);
        seen = market.ticker ∷ found.seen;
      }

  unfoldable pub take_page : List json.Value → Crawl → Crawl
  take_page [] found = found
  take_page (value ∷ values) found =
      take_page values (take_market value (json.as_market value) found)

  abbrev pub page_query : Text → Option Text → Text → Query
  page_query series_ticker status cursor =
      (codes "series_ticker", series_ticker)
      ∷ (codes "mve_filter", codes "exclude")
      ∷ (codes "limit", codes "1000")
      ∷ ((elim status [ none ↦ [] | some s ↦ (codes "status", s) ∷ [] ])
          ++ (if is_empty_text cursor then [] else (codes "cursor", cursor) ∷ []))

  module _ (net : Network) (config : RestConfig) where
    -- One request of a page.
    unfoldable pub get_page :
        Text
        → Option Text
        → Text
        → net.State
        → net.State × Result RestError ((List json.Value × Text) × ResponseMeta)
    unfolding get_json
    get_page series_ticker status cursor n =
        let (n', (waited, r)) =
          get_json net config json.as_page (codes "/markets")
            (page_query series_ticker status cursor) n in
        (n', r)

    abbrev pub Crawled : Type 0
    Crawled = net.State × Result RestError Crawl

    -- The page of a cursor joins the collections; `continue` takes the pages behind it.
    unfoldable pub after_page :
        (cursor : Text) (found : Crawl)
        → (Text → net.State → Crawl → Option Crawled)
        → net.State × Result RestError ((List json.Value × Text) × ResponseMeta)
        → Option Crawled
    unfolding take_page
    after_page cursor found continue (n, err e) = some (n, err e)
    after_page cursor found continue (n, ok ((values, next), meta)) =
        let grown = take_page values (record found { cursors = found.cursors ++ (cursor ∷ []) }) in
        if is_empty_text next then some (n, ok grown) else continue next n grown

    -- The loop over the pages of a status; `none` is out of fuel.
    unfoldable pub crawl_pages : ℕ → Text → Option Text → Text → net.State → Crawl → Option Crawled
    unfolding get_page after_page
    crawl_pages zero series_ticker status cursor n found = none
    crawl_pages (suc fuel) series_ticker status cursor n found =
        after_page cursor found (λ c m f. crawl_pages fuel series_ticker status c m f)
          (get_page series_ticker status cursor n)

    abbrev pub after_pass : (net.State → Crawl → Option Crawled) → Option Crawled → Option Crawled
    after_pass continue none = none
    after_pass continue (some (n, err e)) = some (n, err e)
    after_pass continue (some (n, ok found)) = continue n found

    -- The loop over the statuses.
    unfoldable pub crawl_passes : ℕ → Text → List (Option Text) → net.State → Crawl → Option Crawled
    unfolding crawl_pages
    crawl_passes fuel series_ticker [] n found = some (n, ok found)
    crawl_passes fuel series_ticker (status ∷ statuses) n found =
        after_pass (λ m f. crawl_passes fuel series_ticker statuses m f)
          (crawl_pages fuel series_ticker status [] n found)

    abbrev pub passes_of : List Text → List (Option Text)
    passes_of [] = none ∷ []
    passes_of (s ∷ ss) = map (λ t. some t) (s ∷ ss)

    abbrev pub pass_of :
        (started_at finished_at : ℤ) → Crawled → net.State × Result RestError DiscoveryPass
    pass_of started_at finished_at (n, err e) = (n, err e)
    pass_of started_at finished_at (n, ok found) =
        let pass : DiscoveryPass = record {
          started_at = started_at;
          finished_at = finished_at;
          cursors = found.cursors;
          markets = found.markets;
          raw_markets = found.raw_markets;
        } in
        (n, ok pass)

    abbrev pub empty_crawl : Crawl
    empty_crawl = record { cursors = []; markets = []; raw_markets = []; seen = [] }

    -- `discover_markets`, between two readings of the clock.
    unfoldable pub discover_markets :
        ℕ
        → Text
        → List Text
        → (started_at finished_at : ℤ) → net.State
        → Option (net.State × Result RestError DiscoveryPass)
    unfolding crawl_passes
    discover_markets fuel series_ticker statuses started_at finished_at n =
        Option.map (pass_of started_at finished_at)
          (crawl_passes fuel series_ticker (passes_of statuses) n empty_crawl)

  -- A market of a pass, as its ticker parses.
  abbrev pub observation :
      ℤ
      → Market
      → json.Value
      → Result TickerError Ticker
      → List PriceRangeObservation
      → List PriceRangeObservation
  observation finished_at market raw (err e) rest = rest
  observation finished_at market raw (ok ticker) rest =
      (record {
        market = ticker;
        observed_at = finished_at;
        source = discovery;
        effective_at = none;
        price_level_structure = market.price_level_structure;
        ranges = market.price_ranges;
        ranges_raw = text_or_empty (json.price_ranges_text raw);
      })
      ∷ rest

  unfoldable pub observe_each : ℤ → List Market → List json.Value → List PriceRangeObservation
  unfolding parse
  observe_each finished_at [] raws = []
  observe_each finished_at (market ∷ markets) [] = []
  observe_each finished_at (market ∷ markets) (raw ∷ raws) =
      observation finished_at market raw (parse market.ticker)
        (observe_each finished_at markets raws)

  unfoldable pub observations_from_discovery : DiscoveryPass → List PriceRangeObservation
  unfolding observe_each
  observations_from_discovery pass = observe_each pass.finished_at pass.markets pass.raw_markets
