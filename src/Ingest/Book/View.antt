-- ===== src/Ingest/Book/View.antt =====
-- `BookView` of crates/ingest/src/book.rs: what a reader of a book derives from its levels.
pub mod Best
use kalshi_alpha.Prelude.{ℕ, Option, none, some, List, length}
use kalshi_alpha.Common.Px.{Px, checked_sub, midpoint}
use kalshi_alpha.Ingest.Book.Levels.{Level, first, final}
use kalshi_alpha.Ingest.Book.Types.{BookView}

unfoldable pub best_bid : BookView → Option Level
best_bid v = final v.bids

unfoldable pub best_ask : BookView → Option Level
best_ask v = first v.asks

abbrev pub spread_of : Option Level → Option Level → Option Px
spread_of none ask = none
spread_of (some bid) none = none
spread_of (some bid) (some ask) = checked_sub ask.0 bid.0

abbrev pub mid_of : Option Level → Option Level → Option Px
mid_of none ask = none
mid_of (some bid) none = none
mid_of (some bid) (some ask) = some (midpoint bid.0 ask.0)

unfoldable pub spread : BookView → Option Px
unfolding best_bid best_ask
spread v = spread_of (best_bid v) (best_ask v)

unfoldable pub mid : BookView → Option Px
unfolding best_bid best_ask
mid v = mid_of (best_bid v) (best_ask v)

abbrev pub bid_levels : BookView → List Level
bid_levels v = v.bids

abbrev pub ask_levels : BookView → List Level
ask_levels v = v.asks

unfoldable pub bid_depth : BookView → ℕ
bid_depth v = length v.bids

unfoldable pub ask_depth : BookView → ℕ
ask_depth v = length v.asks
