-- ===== src/Ingest/Book/Examples.antt =====
-- The theorems on books at a book with a snapshot of two YES levels and one NO level.
use kalshi_alpha.Prelude.{
  ℕ, ◌+◌, ◌≡◌, ◌↔◌, refl, true, false, some, none, List, [], ◌∷◌, arith, Exec, done, ok, pos, map,
  reverse, All,
}
use kalshi_alpha.Prelude.Text.{codes}
use kalshi_alpha.Common.Px.{Px, from_micros}
use kalshi_alpha.Common.Qty.{Qty, from_fp_units}
use kalshi_alpha.Common.Ticker.{Ticker, Side, yes_side}
use kalshi_alpha.Ingest.Book.Levels.{Level}
use kalshi_alpha.Ingest.Book.Types.{
  OrderBook, DeltaOutcome, applied, gapped, discarded_invalid, regression,
}
use kalshi_alpha.Ingest.Book.Pricing.{Convention, no_leg}
use kalshi_alpha.Ingest.Book.{
  new, levels, no_bids, continuity, complement_level, apply_snapshot, check_invariants,
  receive_delta_with,
}
use kalshi_alpha.Ingest.Book.Invariants.{IsSound, AllPositive, Uncrossed, check_invariants_iff}
use kalshi_alpha.Ingest.Book.Snapshot.{apply_snapshot_invariants, apply_snapshot_no_leg}
use kalshi_alpha.Ingest.Book.Snapshot.Loops.{resting}
use kalshi_alpha.Ingest.Book.Gaps.{Delta, receive_all, count_applied, IsLossless, receive_delta_gap}
use kalshi_alpha.Ingest.Book.Runs.{receive_all_contiguous}
use kalshi_alpha.Ingest.Book.View.{best_bid, best_ask}
use kalshi_alpha.Ingest.Book.View.Best.{IsBest, best_prices_lem}

abbrev market : Ticker
market = record { text = codes "KXBTC" }

abbrev level_at : ℕ → ℕ → Level
level_at price size = (from_micros (pos price), from_fp_units (pos size))

abbrev yes_side_levels : List Level
yes_side_levels = level_at 410_000 300 ∷ level_at 420_000 1_300 ∷ []

abbrev no_side_levels : List Level
no_side_levels = level_at 540_000 2_000 ∷ level_at 550_000 0 ∷ level_at 560_000 700 ∷ []

-- A readable book that has seen the sequence number 7.
abbrev live_book : (c : Convention) → OrderBook c
live_book c = record {
  market = market;
  sid = some 3;
  bids = level_at 410_000 300 ∷ [];
  asks = level_at 440_000 700 ∷ [];
  valid = true;
  last_seq = some 7;
  grid = none;
  off_grid_observations = 0;
  desync_invalidations = 0;
}

abbrev delta_at : ℕ → Delta
delta_at seq = record {
  seq = seq;
  side = yes_side;
  price = from_micros (pos 410_000);
  change = from_fp_units (pos 100);
}

-- A function that applies a delta by leaving the book alone.
abbrev keep : OrderBook no_leg → Side → Px → Qty → Exec (OrderBook no_leg)
keep b side price change = done b

apply_snapshot_no_leg_example :
    (b' : OrderBook no_leg) × (apply_snapshot (new no_leg market) 3 7 yes_side_levels no_side_levels
      ≡ done (b', ok (continuity (new no_leg market).last_seq 7)))
    × (levels b'
        ≡ some (record {
          bids = resting yes_side_levels;
          asks = reverse (map complement_level (resting no_side_levels));
        }))
    × (no_bids b' ≡ some (reverse (resting no_side_levels)))
    × (b'.sid ≡ some 3)
    × (b'.last_seq ≡ some 7)
unfolding new
apply_snapshot_no_leg_example =
    apply_snapshot_no_leg (new no_leg market) 3 7 yes_side_levels no_side_levels (omega arith, tt)
      (omega arith, (omega arith, tt))
      ((omega arith, omega arith), ((omega arith, omega arith), ((omega arith, omega arith), tt)))
      tt

apply_snapshot_invariants_example :
    (b' : OrderBook no_leg) × (apply_snapshot (live_book no_leg) 3 7 yes_side_levels no_side_levels
      ≡ done (b', ok (continuity (live_book no_leg).last_seq 7)))
    × ((check_invariants b' ≡ ok tt)
        ↔ (AllPositive b'.bids × AllPositive b'.asks × Uncrossed b'.bids b'.asks))
apply_snapshot_invariants_example =
    apply_snapshot_invariants (live_book no_leg) 3 7 yes_side_levels no_side_levels
      (omega arith, tt) (omega arith, (omega arith, tt)) tt

abbrev shuffled : List Level
shuffled = level_at 420_000 100 ∷ level_at 410_000 100 ∷ []

check_invariants_iff_example :
    (check_invariants (live_book no_leg) ≡ ok tt) ↔ IsSound (live_book no_leg)
check_invariants_iff_example =
    check_invariants_iff (live_book no_leg) (record { bids_sorted = tt; asks_sorted = tt })

receive_delta_gap_example :
    (b' : OrderBook no_leg) × (receive_all keep (live_book no_leg) (delta_at 10 ∷ delta_at 11 ∷ [])
      ≡ done (b', gapped 8 10 ∷ discarded_invalid ∷ []))
    × (b' ≡ record (live_book no_leg) { valid = false; last_seq = some 10 })
    × (levels b' ≡ none)
receive_delta_gap_example =
    receive_delta_gap keep (live_book no_leg) (delta_at 10) (delta_at 11 ∷ []) 7 refl refl
      (omega arith) (omega arith)

-- Two deltas in order, with a repetition between them.
abbrev run : List Delta
run = delta_at 8 ∷ delta_at 8 ∷ delta_at 9 ∷ []

abbrev run_outcomes : List DeltaOutcome
run_outcomes = applied ∷ regression 8 8 ∷ applied ∷ []

abbrev book_after : OrderBook no_leg
book_after = record (live_book no_leg) { last_seq = some 9 }

run_result : receive_all keep (live_book no_leg) run ≡ done (book_after, run_outcomes)
unfolding receive_all receive_delta_with
run_result = refl

receive_all_contiguous_example :
    All IsLossless run_outcomes × (book_after.last_seq ≡ some (7 + count_applied run_outcomes))
receive_all_contiguous_example =
    receive_all_contiguous keep (live_book no_leg) run book_after run_outcomes 7 refl run_result
      refl

best_prices_lem_example :
    IsBest
      (record { bids = level_at 410_000 300 ∷ []; asks = level_at 440_000 700 ∷ [] })
      (level_at 410_000 300)
      (level_at 440_000 700)
unfolding levels best_bid best_ask check_invariants
best_prices_lem_example =
    best_prices_lem (live_book no_leg)
      (record { bids = level_at 410_000 300 ∷ []; asks = level_at 440_000 700 ∷ [] })
      (level_at 410_000 300) (level_at 440_000 700) (record { bids_sorted = tt; asks_sorted = tt })
      refl refl refl refl (omega arith, omega arith) (omega arith, omega arith)
