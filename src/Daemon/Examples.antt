-- ===== src/Daemon/Examples.antt =====
-- A batch of two channels, grouped and written.
use kalshi_alpha.Prelude.{ℕ, ◌≡◌, refl, arith, Option, some, List, [], ◌∷◌, length, Result, ok, pos}
use kalshi_alpha.Prelude.Text.{Text}
use kalshi_alpha.Store.Channel.{Channel, trade, ticker}
use kalshi_alpha.Store.Writer.Records.{Agrees}
use kalshi_alpha.Store.Writer.Examples.{disk, calendar, empty_store}
use kalshi_alpha.Daemon.Grouping.{group_by_channel, write_grouped}
use kalshi_alpha.Daemon.Grouping.Groups.{total}
use kalshi_alpha.Daemon.Grouping.Counts.{Counts, write_grouped_lem}

abbrev batch_of_three : List (Channel × ℕ)
batch_of_three = (trade, 1) ∷ (ticker, 2) ∷ (trade, 3) ∷ []

abbrev pub channel_of : Channel × ℕ → Channel
channel_of r = r.0

abbrev pub count_rows : Channel → List (Channel × ℕ) → ℕ
count_rows channel rs = length rs

abbrev pub encoded : Channel → Text → List (Channel × ℕ) → Result Unit (Option (ℕ × ℕ))
encoded channel session_id rs = ok (some (length rs, 8))

encoded-Agrees :
    (channel : Channel) (session_id : Text) (r : Channel × ℕ) (rs : List (Channel × ℕ))
    → Agrees (count_rows channel (r ∷ rs)) (encoded channel session_id (r ∷ rs))
encoded-Agrees channel session_id r rs = refl

write_grouped_lem_example :
    (total channel_of (group_by_channel channel_of batch_of_three []) ≡ 3)
    × Counts channel_of disk calendar count_rows encoded encoded-Agrees 0
        (group_by_channel channel_of batch_of_three [])
        (write_grouped channel_of disk calendar count_rows encoded batch_of_three
          (pos 5)
          (0, empty_store))
write_grouped_lem_example =
    write_grouped_lem channel_of disk calendar count_rows encoded encoded-Agrees batch_of_three
      (pos 5) 0 empty_store (tt, (tt, omega (arith)))
