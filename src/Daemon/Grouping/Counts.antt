-- ===== src/Daemon/Grouping/Counts.antt =====
-- What the counters of the writer say of a run of `write_grouped` of bin/capture.rs.
use kalshi_alpha.Prelude.{
  ℕ, ◌+◌, ◌≡◌, ◌≢◌, refl, All, Bool-cases, length-append, ap, Option, List, [], ◌∷◌, ◌++◌, length,
  arith, Result, ok, err, ℤ, inl, inr,
}
use kalshi_alpha.Prelude.Text.{Text}
use kalshi_alpha.Store.Channel.{Channel, eq_channel}
use kalshi_alpha.Store.Session.{Calendar}
use kalshi_alpha.Store.Disk.{Disk}
use kalshi_alpha.Store.Writer.{WriteError, ParquetStore}
use kalshi_alpha.Store.Writer.Steps.{next, write_records}
use kalshi_alpha.Store.Writer.Invariant.{IsStore, Ends}
use kalshi_alpha.Store.Writer.Runs.{write_records-IsStore}
use kalshi_alpha.Store.Writer.Records.{Agrees, Settled, write_records_lem}
use kalshi_alpha.Daemon.Grouping.{push_record, group_by_channel, write_groups, write_grouped}
use kalshi_alpha.Daemon.Grouping.Groups.{total, total-group_by_channel}

module _ {R : Type 0} (channel_of : R → Channel) (D : Disk) (calendar : Calendar)
    (expected_rows : Channel → List R → ℕ)
    (encode : Channel → Text → List R → Result Unit (Option (ℕ × ℕ)))
    (agrees : (channel : Channel) (session_id : Text) (r : R) (rs : List R)
      → Agrees (expected_rows channel (r ∷ rs)) (encode channel session_id (r ∷ rs))) where
  -- Some first groups are counted as dequeued, and all of them where the run succeeds.
  abbrev pub Counts :
      ℕ → List (Channel × List R) → (D.State × ParquetStore) × Result WriteError Unit → Type 0
  Counts before groups ((d, s), ok _) = s.records_dequeued ≡ before + total channel_of groups
  Counts before groups ((d, s), err e) =
      (counted : List (Channel × List R)) × ((lost : List (Channel × List R)) × ((groups
            ≡ counted ++ lost)
          × (s.records_dequeued ≡ before + total channel_of counted)))

  next-Counts :
      (before : ℕ) (channel : Channel) (group : List R) (groups : List (Channel × List R)) (now : ℤ)
      (q : (D.State × ParquetStore) × Result WriteError ℕ) (w x n : ℕ)
      → Settled w x before n (length group) q
      → Ends (IsStore calendar) (λ t. Unit) q
      → ((d : D.State) (s : ParquetStore)
          → IsStore calendar s
          → Counts s.records_dequeued groups
              (write_groups channel_of D calendar expected_rows encode groups now (d, s)))
      → Counts before
          ((channel, group) ∷ groups)
          (next q λ _ w'. write_groups channel_of D calendar expected_rows encode groups now w')
  next-Counts before channel group groups now ((d, s), err e) w x n h i t =
      ((channel, group) ∷ [], (groups, (refl, omega (arith, h.1.1))))
  next-Counts before channel group groups now ((d, s), ok k) w x n h i t =
      extend (write_groups channel_of D calendar expected_rows encode groups now (d, s)) (t d s i.0)
    where
      extend :
          (q : (D.State × ParquetStore) × Result WriteError Unit)
          → Counts s.records_dequeued groups q
          → Counts before ((channel, group) ∷ groups) q
      extend ((d', s'), ok _) c = omega (arith, c, h.1.1.1)
      extend ((d', s'), err e) (counted, (lost, (same, c))) = (
        (channel, group) ∷ counted,
        (lost, (ap (λ l. (channel, group) ∷ l) same, omega (arith, c, h.1.1.1))),
      )

  write_groups-Counts :
      (groups : List (Channel × List R)) (now : ℤ) (d : D.State) (s : ParquetStore)
      → All (λ g. length g.1 ≢ 0) groups
      → IsStore calendar s
      → Counts s.records_dequeued groups
          (write_groups channel_of D calendar expected_rows encode groups now (d, s))
  unfolding write_groups
  write_groups-Counts [] now d s p i = omega (arith)
  write_groups-Counts ((channel, []) ∷ groups) now d s p i = absurd (p.0 refl)
  write_groups-Counts ((channel, r ∷ rs) ∷ groups) now d s p i =
      next-Counts s.records_dequeued channel (r ∷ rs) groups now
        (write_records D calendar expected_rows encode channel (r ∷ rs) now (d, s)) _ _ _
        (write_records_lem calendar D expected_rows encode channel r rs now d s i.0
          (agrees channel s.session.session_id r rs))
        (write_records-IsStore calendar D expected_rows encode channel (r ∷ rs) now d s i)
        (λ d' s' i'. write_groups-Counts groups now d' s' p.1 i')

  push-NonEmpty :
      (r : R) (groups : List (Channel × List R))
      → All (λ g. length g.1 ≢ 0) groups
      → All (λ g. length g.1 ≢ 0) (push_record channel_of r groups)
  unfolding push_record
  push-NonEmpty r [] h = ((λ e. absurd (omega (arith, e))), tt)
  push-NonEmpty r ((c, rs) ∷ groups) h = elim (Bool-cases (eq_channel c (channel_of r))) [
    | inl e ↦ rw e ((λ x. absurd (omega (arith, x, length-append rs (r ∷ [])))), h.1)
    | inr e ↦ rw e (h.0, push-NonEmpty r groups h.1)
  ]

  group-NonEmpty :
      (rs : List R) (groups : List (Channel × List R))
      → All (λ g. length g.1 ≢ 0) groups
      → All (λ g. length g.1 ≢ 0) (group_by_channel channel_of rs groups)
  unfolding group_by_channel
  group-NonEmpty [] groups h = h
  group-NonEmpty (r ∷ rs) groups h =
      group-NonEmpty rs (push_record channel_of r groups) (push-NonEmpty r groups h)

  -- When the store is well formed and the encoder gives the expected rows or fails, a `write_grouped`
  -- that succeeds counts every record of the groups as dequeued, which are as many as those of the
  -- batch; one that fails counts those of some first groups, and the groups behind them are not counted.
  pub write_grouped_lem :
      (records : List R) (now : ℤ) (d : D.State) (s : ParquetStore)
      → IsStore calendar s
      → (total channel_of (group_by_channel channel_of records []) ≡ length records)
        × Counts s.records_dequeued
            (group_by_channel channel_of records [])
            (write_grouped channel_of D calendar expected_rows encode records now (d, s))
  unfolding write_grouped
  write_grouped_lem records now d s i = (
    omega (arith, total-group_by_channel channel_of records []),
    write_groups-Counts (group_by_channel channel_of records []) now d s
        (group-NonEmpty records [] tt) i,
  )
