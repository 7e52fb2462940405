-- ===== src/Ingest/Book/Pricing.antt =====
-- The pricing convention of crates/ingest/src/book.rs: a type parameter of the book there and here.
use kalshi_alpha.Prelude.{Bool, true, false, if◌then◌else◌}
use kalshi_alpha.Prelude.Text.{Text, codes}
use kalshi_alpha.Common.Px.{Px, complement}
use kalshi_alpha.Common.Ticker.{Side, yes_side, no_side}

pub data Convention : Type 0 where
  no_leg yes_leg : Convention

-- `C::LABEL`
abbrev pub label : Convention → Text
label no_leg = codes "no_leg"
label yes_leg = codes "yes_leg"

-- `C::USE_YES_PRICE`
abbrev pub use_yes_price : Convention → Bool
use_yes_price no_leg = false
use_yes_price yes_leg = true

unfoldable pub yes_ask_price_for : Convention → Side → Px → Px
yes_ask_price_for c yes_side price = price
yes_ask_price_for c no_side price = if use_yes_price c then price else complement price
