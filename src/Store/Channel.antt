-- ===== src/Store/Channel.antt =====
-- The channels of crates/store/src/schema.rs.
use kalshi_alpha.Prelude.{ℕ, Bool, ◌==◌, List, [], ◌∷◌}
use kalshi_alpha.Prelude.Text.{Text, codes}

pub data Channel : Type 0 where
  orderbook_snapshot orderbook_delta ticker trade market_lifecycle : Channel
  event_fee_update price_ranges unparsed control : Channel

abbrev pub channel_str : Channel → Text
channel_str orderbook_snapshot = codes "orderbook_snapshot"
channel_str orderbook_delta = codes "orderbook_delta"
channel_str ticker = codes "ticker"
channel_str trade = codes "trade"
channel_str market_lifecycle = codes "market_lifecycle"
channel_str event_fee_update = codes "event_fee_update"
channel_str price_ranges = codes "price_ranges"
channel_str unparsed = codes "unparsed"
channel_str control = codes "control"

-- `Channel::all`
abbrev pub all_channels : List Channel
all_channels =
    orderbook_snapshot ∷ orderbook_delta ∷ ticker ∷ trade ∷ market_lifecycle ∷ event_fee_update
    ∷ price_ranges ∷ unparsed ∷ control ∷ []

-- The place in the declaration, by which the derived equality compares.
abbrev pub discriminant : Channel → ℕ
discriminant orderbook_snapshot = 0
discriminant orderbook_delta = 1
discriminant ticker = 2
discriminant trade = 3
discriminant market_lifecycle = 4
discriminant event_fee_update = 5
discriminant price_ranges = 6
discriminant unparsed = 7
discriminant control = 8

abbrev pub eq_channel : Channel → Channel → Bool
eq_channel c d = discriminant c == discriminant d
