-- ===== src/Ingest/Book/View/Best.antt =====
-- The derived prices of a book that keeps its invariants.
use kalshi_alpha.Prelude.{
  ◌≡◌, refl, subst, ap, some, [], ◌∷◌, All, ok, ℤ, checked_i64, pos, negsuc, ◌+ℤ◌, ◌-ℤ◌, ◌<ℤ◌, ◌≤ℤ◌,
  pos_part, ◌-◌, InI64, arith, Bool-cases, inl, inr,
}
use mathlib.Core.Option.{some-injective}
use kalshi_alpha.Common.Px.{Px, px_scale, checked_sub, map_px, from_micros, midpoint}
use kalshi_alpha.Common.Px.Arith.{InDollar, midpoint_floor}
use kalshi_alpha.Ingest.Book.Levels.{
  Level, LevelMap, IsSorted, first, first_least, final_greatest, All-final,
}
use kalshi_alpha.Ingest.Book.Pricing.{Convention}
use kalshi_alpha.Ingest.Book.Types.{OrderBook, BookView}
use kalshi_alpha.Ingest.Book.{levels, check_invariants}
use kalshi_alpha.Ingest.Book.Invariants.{IsMapped, Uncrossed, check_invariants_iff}
use kalshi_alpha.Ingest.Book.View.{best_bid, best_ask, spread, mid}

-- The price lies from the best bid up to, and not at, the best ask.
abbrev pub Between : Px → Px → Px → Type 0
Between bid ask m = (bid.micros ≤ℤ m.micros) × (m.micros <ℤ ask.micros)

difference :
    (a b : ℤ)
    → pos 0 ≤ℤ a
    → b ≤ℤ pos px_scale
    → a <ℤ b
    → (checked_i64 (b -ℤ a) ≡ some (pos (pos_part b - pos_part a)))
      × ((pos 0 <ℤ pos (pos_part b - pos_part a)) × (a +ℤ pos (pos_part b - pos_part a) ≡ b))
unfolding ◌+ℤ◌ ◌-ℤ◌
difference (pos a) (pos b) h k l = (ground arith, (omega (arith, l), ground arith))
difference (pos a) (negsuc b) h k l = absurd (omega (arith, l))
difference (negsuc a) b h k l = absurd (omega (arith, h))

-- The difference of two prices of a dollar is no overflow.
apart :
    (bid ask : Px)
    → InDollar bid
    → InDollar ask
    → bid.micros <ℤ ask.micros
    → (s : Px) × (checked_sub ask bid ≡ some s)
      × (pos 0 <ℤ s.micros)
      × (bid.micros +ℤ s.micros ≡ ask.micros)
unfolding checked_sub
apart bid ask hb ha h =
    let (e, k) = difference bid.micros ask.micros hb.0 ha.1 h in
    (from_micros (pos (pos_part ask.micros - pos_part bid.micros)), ap map_px e, k.0, k.1)

squeezed :
    (a b m : ℤ)
    → pos 0 ≤ℤ a
    → a <ℤ b
    → m +ℤ m ≤ℤ a +ℤ b
    → a +ℤ b <ℤ m +ℤ m +ℤ pos 2
    → (a ≤ℤ m) × (m <ℤ b)
unfolding ◌+ℤ◌
squeezed (pos a) (pos b) (pos m) h l p q = ground arith
squeezed (pos a) (pos b) (negsuc m) h l p q = ground arith
squeezed (pos a) (negsuc b) m h l p q = absurd (omega (arith, l))
squeezed (negsuc a) b m h l p q = absurd (omega (arith, h))

in_i64 : (m : ℤ) → pos 0 ≤ℤ m → m ≤ℤ pos px_scale → InI64 m
in_i64 (pos n) h k = omega (arith, k)
in_i64 (negsuc n) h k = absurd (omega (arith, h))

between :
    (bid ask : Px)
    → InDollar bid
    → InDollar ask
    → bid.micros <ℤ ask.micros
    → Between bid ask (midpoint bid ask)
between bid ask hb ha h =
    let (low, high, inside) =
      midpoint_floor bid ask (in_i64 bid.micros hb.0 hb.1) (in_i64 ask.micros ha.0 ha.1) in
    squeezed bid.micros ask.micros (midpoint bid ask).micros hb.0 h low high

first-below :
    (best : Level) (asks : LevelMap) (ask : Level)
    → first asks ≡ some ask
    → All (λ l. best.0.micros <ℤ l.0.micros) asks
    → best.0.micros <ℤ ask.0.micros
first-below best (x ∷ asks) ask e h =
    subst (λ (l : Level). best.0.micros <ℤ l.0.micros) (some-injective _ _ e) h.0
first-below best [] ask e h = absurd (cc)

-- What holds of a view, its best bid and its best ask.
abbrev pub IsBest : BookView → Level → Level → Type 0
IsBest v bid ask =
    All (λ l. l.0.micros ≤ℤ bid.0.micros) v.bids
    × All (λ l. ask.0.micros ≤ℤ l.0.micros) v.asks
    × ((s : Px) × (spread v ≡ some s)
        × (pos 0 <ℤ s.micros)
        × (bid.0.micros +ℤ s.micros ≡ ask.0.micros))
    × ((m : Px) × (mid v ≡ some m) × Between bid.0 ask.0 m)

sorted-IsBest :
    (v : BookView) (bid ask : Level)
    → IsSorted v.bids
    → IsSorted v.asks
    → Uncrossed v.bids v.asks
    → best_bid v ≡ some bid
    → best_ask v ≡ some ask
    → InDollar bid.0
    → InDollar ask.0
    → IsBest v bid ask
unfolding best_bid best_ask spread mid
sorted-IsBest v bid ask sb sa u hb ha db da =
    let below = first-below bid v.asks ask ha (All-final _ v.bids bid hb u) in
    let (s, e, positive, exact) = apart bid.0 ask.0 db da below in
    (
      final_greatest v.bids bid sb hb,
      first_least v.asks ask sa ha,
      (s, rw (hb, ha) e, positive, exact),
      (midpoint bid.0 ask.0, rw (hb, ha) refl, between bid.0 ask.0 db da below),
    )

-- On a readable book whose maps are in key order and that passes its check, with the best prices from
-- 0 to 1 dollar: no bid is above the best bid and no ask below the best ask, the spread is positive and
-- is exactly what the best ask has above the best bid, and the midpoint is at least the best bid and
-- below the best ask.
pub best_prices_lem :
    {c : Convention} (b : OrderBook c) (v : BookView) (bid ask : Level)
    → IsMapped b
    → check_invariants b ≡ ok tt
    → levels b ≡ some v
    → best_bid v ≡ some bid
    → best_ask v ≡ some ask
    → InDollar bid.0
    → InDollar ask.0
    → IsBest v bid ask
unfolding levels
best_prices_lem b v bid ask m h r hb ha db da =
    let sound = (check_invariants_iff b m).0 h in
    elim (Bool-cases b.valid) [
      | inl valid ↦
          let same : record { bids = b.bids; asks = b.asks } ≡ v =
            some-injective _ v (rw valid at r) in
          sorted-IsBest v bid ask (subst (λ (w : BookView). IsSorted w.bids) same m.bids_sorted)
            (subst (λ (w : BookView). IsSorted w.asks) same m.asks_sorted)
            (subst (λ (w : BookView). Uncrossed w.bids w.asks) same sound.uncrossed) hb ha db da
      | inr invalid ↦ absurd (ground arith)
    ]
