-- ===== src/Ingest/Book/Invariants.antt =====
-- `check_invariants` decides the invariants of a book.
use kalshi_alpha.Prelude.{
  ◌≡◌, ◌≢◌, ◌↔◌, refl, true, none, some, [], ◌∷◌, arith, All, All-imp, All-intro, ok, Result-cases,
  inl, inr, pos, ◌<ℤ◌,
}
use kalshi_alpha.Prelude.Text.{Text, codes}
use kalshi_alpha.Ingest.Book.Levels.{
  Level, LevelMap, first, final, IsSorted, first_least, final_greatest, final-some, All-final,
}
use kalshi_alpha.Ingest.Book.Types.{OrderBook}
use kalshi_alpha.Ingest.Book.Pricing.{Convention}
use kalshi_alpha.Ingest.Book.{check_levels, check_validity, check_crossed, check_invariants}

-- Every level has a positive size.
abbrev pub AllPositive : LevelMap → Type 0
AllPositive = All (λ l. pos 0 <ℤ l.1.fp_units)

-- Every bid is below every ask.
abbrev pub Uncrossed : LevelMap → LevelMap → Type 0
Uncrossed bids asks = All (λ bid. All (λ ask. bid.0.micros <ℤ ask.0.micros) asks) bids

-- What a book promises: positive sizes, a subscription and a sequence number behind a readable book,
-- and no bid at or above an ask.
pub record IsSound {c : Convention} (b : OrderBook c) : Type 0 where
  pub bids_positive : AllPositive b.bids
  pub asks_positive : AllPositive b.asks
  pub has_sid : b.valid ≡ true → b.sid ≢ none
  pub has_seq : b.valid ≡ true → b.last_seq ≢ none
  pub uncrossed : Uncrossed b.bids b.asks

-- Both maps are in key order, as every `BTreeMap` is.
pub record IsMapped {c : Convention} (b : OrderBook c) : Type 0 where
  pub bids_sorted : IsSorted b.bids
  pub asks_sorted : IsSorted b.asks

levels_sound : (side : Text) (m : LevelMap) → check_levels side m ≡ ok tt → AllPositive m
unfolding check_levels
levels_sound side [] h = tt
levels_sound side ((p, q) ∷ m) h = ground (arith, levels_sound side m)

levels_complete : (side : Text) (m : LevelMap) → AllPositive m → check_levels side m ≡ ok tt
unfolding check_levels
levels_complete side [] h = refl
levels_complete side ((p, q) ∷ m) h = ground (arith, levels_complete side m h.1, h.0)

-- The best prices alone decide whether sorted sides cross.
crossed_sound :
    (bids asks : LevelMap)
    → IsSorted bids
    → IsSorted asks
    → check_crossed (final bids) (first asks) ≡ ok tt
    → Uncrossed bids asks
unfolding check_crossed
crossed_sound [] asks hb ha h = tt
crossed_sound (x ∷ bids) [] hb ha h = All-intro (λ b. tt) (x ∷ bids)
crossed_sound (x ∷ bids) (y ∷ asks) hb ha h =
    let (best, e) = final-some x bids in
    let below : best.0.micros <ℤ y.0.micros = apart best e in
    All-imp
      (λ bid le. All-imp (λ ask ge. omega arith) (y ∷ asks) (first_least (y ∷ asks) y ha refl))
      (x ∷ bids) (final_greatest (x ∷ bids) best hb e)
  where
    apart : (best : Level) → final (x ∷ bids) ≡ some best → best.0.micros <ℤ y.0.micros
    apart best e = ground arith

crossed_complete :
    (bids asks : LevelMap) → Uncrossed bids asks → check_crossed (final bids) (first asks) ≡ ok tt
unfolding check_crossed
crossed_complete [] asks h = refl
crossed_complete (x ∷ bids) [] h = rw ((final-some x bids).1)
crossed_complete (x ∷ bids) (y ∷ asks) h =
    let (best, e) = final-some x bids in
    let apart = All-final _ (x ∷ bids) best e h in rw e (ground (arith, apart.0))

validity_sound :
    {c : Convention} (b : OrderBook c)
    → check_validity b ≡ ok tt
    → (b.valid ≡ true → b.sid ≢ none) × (b.valid ≡ true → b.last_seq ≢ none)
unfolding check_validity
validity_sound b h = (λ v. ground arith, λ v. ground arith)

validity_complete :
    {c : Convention} (b : OrderBook c)
    → (b.valid ≡ true → b.sid ≢ none)
    → (b.valid ≡ true → b.last_seq ≢ none)
    → check_validity b ≡ ok tt
unfolding check_validity
validity_complete b h k = ground arith

module _ {c : Convention} (b : OrderBook c) (m : IsMapped b) where
  checks_IsSound : check_invariants b ≡ ok tt → IsSound b
  unfolding check_invariants
  checks_IsSound h = elim (Result-cases (check_levels (codes "bid") b.bids)) [
    | inl (u, e) ↦ elim (Result-cases (check_levels (codes "ask") b.asks)) [
      | inl (u', e') ↦ elim (Result-cases (check_validity b)) [
        | inl (u'', e'') ↦
            let (sid, seq) = validity_sound b e'' in
            record {
              bids_positive = levels_sound (codes "bid") b.bids e;
              asks_positive = levels_sound (codes "ask") b.asks e';
              has_sid = sid;
              has_seq = seq;
              uncrossed = crossed_sound b.bids b.asks m.bids_sorted m.asks_sorted (ground arith);
            }
        | inr (x, e'') ↦ absurd (ground arith)
      ]
      | inr (x, e') ↦ absurd (ground arith)
    ]
    | inr (x, e) ↦ absurd (ground arith)
  ]

  IsSound-checks : IsSound b → check_invariants b ≡ ok tt
  unfolding check_invariants
  IsSound-checks s = rw (levels_complete (codes "bid") b.bids s.bids_positive) (
      rw (levels_complete (codes "ask") b.asks s.asks_positive)
        (rw (validity_complete b s.has_sid s.has_seq) (crossed_complete b.bids b.asks s.uncrossed)))

-- On a book whose maps are in key order the check passes exactly when every level has a positive
-- size, a readable book has a subscription and a sequence number, and every bid is below every ask.
pub check_invariants_iff :
    {c : Convention} (b : OrderBook c) → IsMapped b → (check_invariants b ≡ ok tt) ↔ IsSound b
check_invariants_iff b m = (checks_IsSound b m, IsSound-checks b m)
