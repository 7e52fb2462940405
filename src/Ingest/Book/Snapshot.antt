-- ===== src/Ingest/Book/Snapshot.antt =====
-- What a snapshot does to a book: `apply_snapshot`.
pub mod Loops
pub mod Contents
use kalshi_alpha.Prelude.{
  ℕ, ◌≡◌, ◌≢◌, ◌↔◌, refl, sym, ap, ◌∙◌, Bool, true, false, Option, none, some, List, [], ◌∷◌, map,
  reverse, arith, All, All-imp, Result, ok, err, Result-cases, ◌>>◌, Exec, done, and_then, inl, inr,
  Bool-cases, ℤ, pos, ◌<ℤ◌, ◌≤ℤ◌, subst, if◌then◌else◌,
}
use kalshi_alpha.Prelude.Text.{codes}
use kalshi_alpha.Common.Px.Arith.{InDollar}
use kalshi_alpha.Common.Qty.{is_zero}
use kalshi_alpha.Ingest.Book.Levels.{Level, LevelMap, IsSorted}
use kalshi_alpha.Ingest.Book.Types.{OrderBook, BookView, BookError, SnapshotContinuity}
use kalshi_alpha.Ingest.Book.Pricing.{Convention, no_leg, yes_leg}
use kalshi_alpha.Ingest.Book.{
  levels, assert_ascending, apply_snapshot, continuity, replace_levels, check_invariants, no_bids,
  complement_level,
}
use kalshi_alpha.Ingest.Book.Ascending.{assert_ascending_iff}
use kalshi_alpha.Ingest.Book.Invariants.{
  IsMapped, IsSound, AllPositive, Uncrossed, check_invariants_iff,
}
use Loops.{GridChecked, resting, insert_all, as_asks, replaced, replace_levels_lem}
use Contents.{
  insert_all-IsSorted, insert_all-resting, insert_all-no_leg, as_asks_yes_leg, complement_twice,
}

module _ {c : Convention} (b : OrderBook c) (sid seq : ℕ) (yes_levels no_levels : List Level) where
  accepted :
      IsSorted yes_levels
      → IsSorted no_levels
      → GridChecked b.grid
      → (n : ℕ) × (apply_snapshot b sid seq yes_levels no_levels
          ≡ done (replaced b sid seq yes_levels no_levels n, ok (continuity b.last_seq seq)))
  unfolding apply_snapshot
  accepted hy hn g =
      let (n, e) = replace_levels_lem b sid seq yes_levels no_levels g in
      (
        n,
        rw ((assert_ascending_iff b yes_levels (codes "yes")).1 hy, apply_snapshot)
            (rw ((assert_ascending_iff b no_levels (codes "no")).1 hn) (rw e)),
      )

  -- A side that does not ascend strictly is refused, and the book is left exactly as it was: also
  -- readable, if it was readable.
  pub apply_snapshot_refused :
      ¬ (IsSorted yes_levels × IsSorted no_levels)
      → (e : BookError) × (apply_snapshot b sid seq yes_levels no_levels ≡ done (b, err e))
  unfolding apply_snapshot
  apply_snapshot_refused h = elim (Result-cases (assert_ascending b yes_levels (codes "yes"))) [
    | inl (u, y) ↦ elim (Result-cases (assert_ascending b no_levels (codes "no"))) [
      | inl (u', n) ↦ absurd (
          h (
            (assert_ascending_iff b yes_levels (codes "yes")).0 y,
            (assert_ascending_iff b no_levels (codes "no")).0 n,
          ))
      | inr (e, n) ↦ (e, rw (y, apply_snapshot) (rw n))
    ]
    | inr (e, y) ↦ (e, rw (y, apply_snapshot))
  ]

  -- Whatever the snapshot holds, an accepted one leaves both maps in key order.
  replaced-IsMapped : (n : ℕ) → IsMapped (replaced b sid seq yes_levels no_levels n)
  replaced-IsMapped n = record {
    bids_sorted = insert_all-IsSorted yes_levels [] tt;
    asks_sorted = insert_all-IsSorted (as_asks c no_levels) [] tt;
  }

  -- With sorted sides and a grid that was checked, a snapshot is accepted, and the new book passes
  -- the invariant check exactly when its levels have positive sizes and do not cross.
  pub apply_snapshot_invariants :
      IsSorted yes_levels
      → IsSorted no_levels
      → GridChecked b.grid
      → (b' : OrderBook c) × (apply_snapshot b sid seq yes_levels no_levels
          ≡ done (b', ok (continuity b.last_seq seq)))
        × ((check_invariants b' ≡ ok tt)
            ↔ (AllPositive b'.bids × AllPositive b'.asks × Uncrossed b'.bids b'.asks))
  apply_snapshot_invariants hy hn g =
      let (n, e) = accepted hy hn g in
      let iff = check_invariants_iff _ (replaced-IsMapped n) in
      (
        replaced b sid seq yes_levels no_levels n,
        e,
        (
          (λ h. let s = iff.0 h in (s.bids_positive, s.asks_positive, s.uncrossed)),
          (λ h. iff.1 (record {
            bids_positive = h.0;
            asks_positive = h.1;
            has_sid = λ v k. cc;
            has_seq = λ v k. cc;
            uncrossed = h.2;
          })),
        ),
      )

-- No level has a negative size.
abbrev pub NoneNegative : List Level → Type 0
NoneNegative = All (λ l. pos 0 ≤ℤ l.1.fp_units)

resting_negative : (ls : List Level) → AllPositive (resting ls) → NoneNegative ls
resting_negative [] h = tt
resting_negative ((p, q) ∷ ls) h = elim (Bool-cases (is_zero q)) [
  | inl z ↦ (ground arith, resting_negative ls (rw (z, resting) at h))
  | inr z ↦ let h' = rw (z, resting) at h in (omega (arith, h'.0), resting_negative ls h'.1)
]

-- The sizes of a snapshot are not tested: on a book whose grid was checked, one with sorted sides and
-- a negative size among the YES levels is accepted, and leaves a book that is readable and fails the invariant check.
pub apply_snapshot_negative_size :
    {c : Convention} (b : OrderBook c) (sid seq : ℕ) (yes_levels no_levels : List Level)
    → IsSorted yes_levels
    → IsSorted no_levels
    → GridChecked b.grid
    → ¬ NoneNegative yes_levels
    → (b' : OrderBook c) × (apply_snapshot b sid seq yes_levels no_levels
        ≡ done (b', ok (continuity b.last_seq seq)))
      × (levels b' ≢ none)
      × (check_invariants b' ≢ ok tt)
unfolding levels
apply_snapshot_negative_size b sid seq yes_levels no_levels hy hn g negative =
    let (n, e) = accepted b sid seq yes_levels no_levels hy hn g in
    let iff = check_invariants_iff _ (replaced-IsMapped b sid seq yes_levels no_levels n) in
    (
      replaced b sid seq yes_levels no_levels n,
      e,
      (λ k. cc),
      (λ k. negative (
          resting_negative yes_levels
            (subst AllPositive (insert_all-resting yes_levels hy) (iff.0 k).bids_positive))),
    )

-- Under `no_leg`, a snapshot with sorted sides, NO prices within a dollar and a checked grid makes the
-- book readable, whatever it was before: its bids are the YES levels with a size, its asks the NO levels
-- with a size at the complementary prices, and the NO bids read back from it are the NO levels that
-- were sent with a size, at the prices they were sent at, best first.
pub apply_snapshot_no_leg :
    (b : OrderBook no_leg) (sid seq : ℕ) (yes_levels no_levels : List Level)
    → IsSorted yes_levels
    → IsSorted no_levels
    → All (λ l. InDollar l.0) no_levels
    → GridChecked b.grid
    → (b' : OrderBook no_leg) × (apply_snapshot b sid seq yes_levels no_levels
        ≡ done (b', ok (continuity b.last_seq seq)))
      × (levels b'
          ≡ some (record {
            bids = resting yes_levels;
            asks = reverse (map complement_level (resting no_levels));
          }))
      × (no_bids b' ≡ some (reverse (resting no_levels)))
      × (b'.sid ≡ some sid)
      × (b'.last_seq ≡ some seq)
unfolding levels no_bids
apply_snapshot_no_leg b sid seq yes_levels no_levels hy hn d g =
    let (n, e) = accepted b sid seq yes_levels no_levels hy hn g in
    let bids = insert_all-resting yes_levels hy in
    let asks = insert_all-no_leg no_levels d hn in
    (
      replaced b sid seq yes_levels no_levels n,
      e,
      (λ i. some (record { bids = bids i; asks = asks i })),
      ap (λ m. some (map complement_level m)) asks ∙ ap some (complement_twice no_levels d),
      refl,
      refl,
    )

-- Under `yes_leg`, a snapshot with sorted sides, on a book whose grid was checked, makes the book
-- readable: its bids are the YES levels with a size, and its asks the NO levels with a size at the
-- prices they came with.
pub apply_snapshot_yes_leg :
    (b : OrderBook yes_leg) (sid seq : ℕ) (yes_levels no_levels : List Level)
    → IsSorted yes_levels
    → IsSorted no_levels
    → GridChecked b.grid
    → (b' : OrderBook yes_leg) × (apply_snapshot b sid seq yes_levels no_levels
        ≡ done (b', ok (continuity b.last_seq seq)))
      × (levels b' ≡ some (record { bids = resting yes_levels; asks = resting no_levels }))
unfolding levels
apply_snapshot_yes_leg b sid seq yes_levels no_levels hy hn g =
    let (n, e) = accepted b sid seq yes_levels no_levels hy hn g in
    let bids = insert_all-resting yes_levels hy in
    let asks =
      ap (λ ls. insert_all ls []) (as_asks_yes_leg no_levels) ∙ insert_all-resting no_levels hn in
    (
      replaced b sid seq yes_levels no_levels n,
      e,
      (λ i. some (record { bids = bids i; asks = asks i })),
    )
