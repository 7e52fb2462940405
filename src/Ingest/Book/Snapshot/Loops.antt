-- ===== src/Ingest/Book/Snapshot/Loops.antt =====
-- What the two loops of `apply_snapshot` leave in the book.
use kalshi_alpha.Prelude.{
  ℕ, ◌+◌, ◌≡◌, refl, Bool, true, false, Option, none, some, List, [], ◌∷◌, arith, All,
  if◌then◌else◌, done, inl, inr, Bool-cases,
}
use kalshi_alpha.Common.Px.{Px}
use kalshi_alpha.Common.Qty.{is_zero}
use kalshi_alpha.Common.Ticker.{no_side}
use kalshi_alpha.Common.Ranges.{PriceRanges}
use kalshi_alpha.Common.Ranges.Validity.{IsBand, is_valid_total}
use kalshi_alpha.Ingest.Book.Levels.{Level, LevelMap, insert}
use kalshi_alpha.Ingest.Book.Types.{OrderBook}
use kalshi_alpha.Ingest.Book.Pricing.{Convention, yes_ask_price_for}
use kalshi_alpha.Ingest.Book.{
  is_empty_list, count_off_grid, note_grid, load_bids, load_asks, replace_levels,
}

-- The grid, if there is one, was built by `PriceRanges::new`.
abbrev pub GridChecked : Option PriceRanges → Type 0
GridChecked none = Unit
GridChecked (some g) = All IsBand g.bands

-- The levels with a size.
abbrev pub resting : List Level → LevelMap
resting [] = []
resting ((p, q) ∷ ls) = if is_zero q then resting ls else (p, q) ∷ resting ls

-- The levels put into a map in turn.
abbrev pub insert_all : List Level → LevelMap → LevelMap
insert_all [] m = m
insert_all ((p, q) ∷ ls) m = insert_all ls (if is_zero q then m else insert p q m)

-- NO levels at the prices of the YES asks that they are.
abbrev pub as_asks : Convention → List Level → List Level
as_asks c [] = []
as_asks c ((p, q) ∷ ls) = (yes_ask_price_for c no_side p, q) ∷ as_asks c ls

module _ {c : Convention} where
  -- The grid test counts, and changes nothing else.
  pub note_grid_lem :
      (b : OrderBook c) (p : Px)
      → GridChecked b.grid
      → (n : ℕ) × (note_grid b p ≡ done (record b { off_grid_observations = n }))
  unfolding note_grid
  note_grid_lem b p h = go b.grid h refl
    where
      counted : (r : Bool) → (n : ℕ) × (count_off_grid b r ≡ record b { off_grid_observations = n })
      counted true = (b.off_grid_observations, refl)
      counted false = (b.off_grid_observations + 1, refl)

      go :
          (g : Option PriceRanges)
          → GridChecked g
          → b.grid ≡ g
          → (n : ℕ) × (note_grid b p ≡ done (record b { off_grid_observations = n }))
      go none k e = (b.off_grid_observations, ground arith)
      go (some g) k e =
          let (r, answer) = is_valid_total g p k in
          let (n, same) = counted r in
          elim (Bool-cases (is_empty_list g.bands)) [
            | inl no_bands ↦ (b.off_grid_observations, ground arith)
            | inr bands ↦ (n, ground (arith, answer, same))
          ]

  pub load_bids_lem :
      (ls : List Level) (b : OrderBook c)
      → GridChecked b.grid
      → (n : ℕ) × (load_bids ls b
          ≡ done (record b { bids = insert_all ls b.bids; off_grid_observations = n }))
  unfolding load_bids
  load_bids_lem [] b h = (b.off_grid_observations, refl)
  load_bids_lem ((p, q) ∷ ls) b h =
      let (n, e) = note_grid_lem b p h in
      elim (Bool-cases (is_zero q)) [
        | inl z ↦
            let (m, e') = load_bids_lem ls (record b { off_grid_observations = n }) h in
            (m, rw e (rw z e'))
        | inr z ↦
            let (m, e') =
              load_bids_lem ls (record b { off_grid_observations = n; bids = insert p q b.bids })
                h in
            (m, rw e (rw z e'))
      ]

  pub load_asks_lem :
      (ls : List Level) (b : OrderBook c)
      → GridChecked b.grid
      → (n : ℕ) × (load_asks ls b
          ≡ done (record b { asks = insert_all (as_asks c ls) b.asks; off_grid_observations = n }))
  unfolding load_asks
  load_asks_lem [] b h = (b.off_grid_observations, refl)
  load_asks_lem ((p, q) ∷ ls) b h =
      let (n, e) = note_grid_lem b p h in
      elim (Bool-cases (is_zero q)) [
        | inl z ↦
            let (m, e') = load_asks_lem ls (record b { off_grid_observations = n }) h in
            (m, rw e (rw (z, as_asks, insert_all) e'))
        | inr z ↦
            let (m, e') =
              load_asks_lem ls
                (record b {
                  off_grid_observations = n;
                  asks = insert (yes_ask_price_for c no_side p) q b.asks;
                })
                h in
            (m, rw e (rw (z, as_asks, insert_all) e'))
      ]

  -- The book after an accepted snapshot, but for the count of prices off the grid.
  abbrev pub replaced : OrderBook c → ℕ → ℕ → List Level → List Level → ℕ → OrderBook c
  replaced b sid seq yes_levels no_levels n = record b {
    sid = some sid;
    bids = insert_all yes_levels [];
    asks = insert_all (as_asks c no_levels) [];
    valid = true;
    last_seq = some seq;
    off_grid_observations = n;
  }

  pub replace_levels_lem :
      (b : OrderBook c) (sid seq : ℕ) (yes_levels no_levels : List Level)
      → GridChecked b.grid
      → (n : ℕ) × (replace_levels b sid seq yes_levels no_levels
          ≡ done (replaced b sid seq yes_levels no_levels n))
  unfolding replace_levels
  replace_levels_lem b sid seq yes_levels no_levels h =
      let (n, e) = load_bids_lem yes_levels (record b { bids = []; asks = [] }) h in
      let (m, e') =
        load_asks_lem no_levels
          (record b { bids = insert_all yes_levels []; asks = []; off_grid_observations = n }) h in
      (m, rw e (rw e'))
