-- ===== src/Ingest/Client/Examples.antt =====
-- The theorems on the client at a network of two pages.
use kalshi_alpha.Prelude.{
  ℕ, zero, suc, ◌+◌, ◌≤◌, ◌<◌, ◌≡◌, ◌⊎◌, refl, Bool, true, false, Option, none, some, List, [], ◌∷◌,
  ◌++◌, map, arith, if◌then◌else◌, Result, ok, err, ℤ, pos,
}
use kalshi_alpha.Prelude.Text.{Text, codes, byte_len}
use kalshi_alpha.Ingest.Client.{default_config, Network, response, get_json}
use kalshi_alpha.Ingest.Client.Retry.{HasWaited, get_json_lem}
use kalshi_alpha.Ingest.Client.Discovery.{Json, Market, DiscoveryPass, get_page, discover_markets}
use kalshi_alpha.Ingest.Client.Discovery.Unique.{IsListed, discover_markets_unique}
use kalshi_alpha.Ingest.Client.Discovery.Ending.{Ended, Advances, discover_markets_ends}

-- The first page names a next one, and the next one does not.
abbrev two_pages : Network
two_pages = record {
  State = Bool;
  send = λ first signed_path url query.
      (false, response 200 none (pos 0) (some (if first then b'c' ∷ [] else [])));
  parse_rfc2822 = λ header. none;
}

abbrev pub market : Market
market = record {
  ticker = codes "KXA";
  event_ticker = none;
  status = none;
  open_time = none;
  close_time = none;
  price_level_structure = none;
  price_ranges = record { bands = [] };
}

-- Each page holds the one market.
abbrev pub json : Json
json = record {
  Value = Unit;
  as_market = λ v. some market;
  as_page = λ body. some (tt ∷ tt ∷ [], body);
  price_ranges_text = λ v. none;
}

abbrev pages_after : Bool → Text → ℕ
pages_after true cursor = 1
pages_after false cursor = 0

-- The network that is too busy for a number of requests.
abbrev busy : Network
busy = record {
  State = ℕ;
  send = λ n signed_path url query. (n + 1, response 429 none (pos 0) none);
  parse_rfc2822 = λ header. none;
}

get_json_lem_example :
    HasWaited busy default_config
      (λ body. some body)
      (codes "/markets")
      []
      (get_json busy default_config (λ body. some body) (codes "/markets") [] 0)
get_json_lem_example =
    get_json_lem busy default_config (λ body. some body) (codes "/markets") [] 0 (omega arith)

abbrev found : DiscoveryPass json
found = record {
  started_at = pos 1;
  finished_at = pos 2;
  cursors = [] ∷ (b'c' ∷ []) ∷ [];
  markets = market ∷ [];
  raw_markets = tt ∷ [];
}

discover_markets_unique_example : IsListed json (market ∷ []) (tt ∷ [])
unfolding discover_markets kalshi_alpha.Prelude.Text.text_eq
discover_markets_unique_example =
    discover_markets_unique json two_pages default_config 2 (codes "KX") [] (pos 1) (pos 2) true
      false found refl

two_pages_advance :
    (status : Option Text) (cursor : Text) (n : Bool)
    → Advances json two_pages default_config pages_after
        (pages_after n cursor)
        (get_page json two_pages default_config (codes "KX") status cursor n)
unfolding get_page
two_pages_advance status cursor true = λ e. omega (arith)
two_pages_advance status cursor false = λ e. absurd (cc)

pages_bound : (n : Bool) → pages_after n [] < 2
pages_bound true = omega (arith)
pages_bound false = omega (arith)

discover_markets_ends_example :
    Ended (discover_markets json two_pages default_config 2 (codes "KX") [] (pos 1) (pos 2) true)
discover_markets_ends_example =
    discover_markets_ends json two_pages default_config pages_after (codes "KX") two_pages_advance 2
      pages_bound [] (pos 1) (pos 2) true
