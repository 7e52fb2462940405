-- ===== src/Daemon/Grouping.antt =====
-- `write_grouped` of bin/capture.rs: a mixed batch is grouped by channel, and each group is written.
-- The `HashMap` of groups is the list of its entries in the order in which they came, which is one of
-- the orders that the source may take; `write_groups` takes the groups in any order.
pub mod Groups
pub mod Counts
use kalshi_alpha.Prelude.{
  ℕ, ◌+◌, Bool, true, false, Option, none, some, List, [], ◌∷◌, ◌++◌, if◌then◌else◌, Result, ok,
  err, ℤ,
}
use kalshi_alpha.Prelude.Text.{Text}
use kalshi_alpha.Store.Channel.{Channel, eq_channel}
use kalshi_alpha.Store.Session.{Calendar}
use kalshi_alpha.Store.Disk.{Disk}
use kalshi_alpha.Store.Writer.{WriteError, ParquetStore}
use kalshi_alpha.Store.Writer.Steps.{next, write_records}

module _ {R : Type 0} (channel_of : R → Channel) where
  abbrev pub Groups : Type 0
  Groups = List (Channel × List R)

  -- `entry(record.channel).or_default().push(record)`
  unfoldable pub push_record : R → Groups → Groups
  push_record r [] = (channel_of r, r ∷ []) ∷ []
  push_record r ((c, rs) ∷ groups) =
      let rest = push_record r groups in
      if eq_channel c (channel_of r) then (c, rs ++ (r ∷ [])) ∷ groups else (c, rs) ∷ rest

  -- The loop over the records.
  unfoldable pub group_by_channel : List R → Groups → Groups
  unfolding push_record
  group_by_channel [] groups = groups
  group_by_channel (r ∷ rs) groups = group_by_channel rs (push_record r groups)

  module _ (D : Disk) (calendar : Calendar) (expected_rows : Channel → List R → ℕ)
      (encode : Channel → Text → List R → Result Unit (Option (ℕ × ℕ))) where
    -- The loop over the groups, up to the first that fails.
    unfoldable pub write_groups :
        Groups → ℤ → D.State × ParquetStore → (D.State × ParquetStore) × Result WriteError Unit
    unfolding write_records
    write_groups [] now w = (w, ok tt)
    write_groups ((channel, group) ∷ groups) now w =
        next (write_records D calendar expected_rows encode channel group now w)
          λ _ w'. write_groups groups now w'

    unfoldable pub write_grouped :
        List R → ℤ → D.State × ParquetStore → (D.State × ParquetStore) × Result WriteError Unit
    unfolding group_by_channel write_groups
    write_grouped records now w = write_groups (group_by_channel records []) now w
