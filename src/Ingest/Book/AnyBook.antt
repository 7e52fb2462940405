-- ===== src/Ingest/Book/AnyBook.antt =====
-- crates/ingest/src/book.rs: a book whose convention is known when the program runs.
use kalshi_alpha.Prelude.{Bool, Option, none, some, if◌then◌else◌}
use kalshi_alpha.Prelude.Text.{Text}
use kalshi_alpha.Common.Ticker.{Ticker}
use kalshi_alpha.Ingest.Book.{levels, new}
use kalshi_alpha.Ingest.Book.Types.{OrderBook, BookView}
use kalshi_alpha.Ingest.Book.Pricing.{no_leg, yes_leg, label}

pub data AnyBook : Type 0 where
  in_no_leg : OrderBook no_leg → AnyBook
  in_yes_leg : OrderBook yes_leg → AnyBook

-- `AnyBook::new`
unfoldable pub new_any : Ticker → Bool → AnyBook
unfolding new
new_any market use_yes_price =
    if use_yes_price then in_yes_leg (new yes_leg market) else in_no_leg (new no_leg market)

unfoldable pub convention_label : AnyBook → Text
convention_label (in_no_leg b) = label no_leg
convention_label (in_yes_leg b) = label yes_leg

unfoldable pub as_no_leg : AnyBook → Option (OrderBook no_leg)
as_no_leg (in_no_leg b) = some b
as_no_leg (in_yes_leg b) = none

unfoldable pub as_yes_leg : AnyBook → Option (OrderBook yes_leg)
as_yes_leg (in_yes_leg b) = some b
as_yes_leg (in_no_leg b) = none

unfoldable pub any_is_valid : AnyBook → Bool
any_is_valid (in_no_leg b) = b.valid
any_is_valid (in_yes_leg b) = b.valid

unfoldable pub any_levels : AnyBook → Option BookView
unfolding levels
any_levels (in_no_leg b) = levels b
any_levels (in_yes_leg b) = levels b
