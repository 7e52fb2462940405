-- ===== src/Ingest/Book/Snapshot/Contents.antt =====
-- The maps that sorted sides leave, as plain lists.
use kalshi_alpha.Prelude.{
  ◌≡◌, refl, sym, ap, ◌∙◌, List, [], ◌∷◌, ◌++◌, append-nil, append_assoc, map, reverse, ap₂, arith,
  All, All-imp, All-append, inl, inr, Bool-cases,
}
use kalshi_alpha.Common.Px.{Px, complement}
use kalshi_alpha.Common.Px.Arith.{InDollar, complement-lt, complement_exact}
use kalshi_alpha.Common.Qty.{Qty, is_zero}
use kalshi_alpha.Ingest.Book.Levels.{
  Level, LevelMap, insert, Above, Above-mono, IsSorted, insert_front, insert_back, insert-IsSorted,
}
use kalshi_alpha.Ingest.Book.Pricing.{no_leg, yes_leg, yes_ask_price_for}
use kalshi_alpha.Ingest.Book.{complement_level}
use mathlib.Core.List.{reverse-cons, map-append}
use kalshi_alpha.Ingest.Book.Snapshot.Loops.{resting, insert_all, as_asks}

-- Whatever is put in, the map stays in key order.
pub insert_all-IsSorted : (ls : List Level) (m : LevelMap) → IsSorted m → IsSorted (insert_all ls m)
insert_all-IsSorted [] m h = h
insert_all-IsSorted ((p, q) ∷ ls) m h = elim (Bool-cases (is_zero q)) [
  | inl z ↦ rw z (insert_all-IsSorted ls m h)
  | inr z ↦ rw z (insert_all-IsSorted ls (insert p q m) (insert-IsSorted p q m h))
]

Above-next : (p k : Px) (q : Qty) (ls : List Level) → Above p ((k, q) ∷ ls) → Above p ls
Above-next p k q ls h = Above-mono p k ls (omega (arith, h.0)) h.1

tail-IsSorted : (p : Px) (ls : List Level) → Above p ls → IsSorted ls
tail-IsSorted p [] h = tt
tail-IsSorted p (l ∷ ls) h = h.1

-- Levels that ascend above all of the map go to its end.
append_ascending :
    (ls : List Level) (m : LevelMap)
    → IsSorted ls
    → All (λ l. Above l.0 ls) m
    → insert_all ls m ≡ m ++ resting ls
append_ascending [] m s h = sym (append-nil m)
append_ascending ((p, q) ∷ ls) m s h = elim (Bool-cases (is_zero q)) [
  | inl z ↦
      rw z (
        append_ascending ls m (tail-IsSorted p ls s) (All-imp (λ l a. Above-next l.0 p q ls a) m h))
  | inr z ↦ rw z (
      ap (insert_all ls) (insert_back p q m (All-imp (λ l a. a.0) m h))
      ∙ append_ascending ls (m ++ (p, q) ∷ []) (tail-IsSorted p ls s)
          (All-append _ m ((p, q) ∷ []) (All-imp (λ l a. Above-next l.0 p q ls a) m h) (s, tt))
      ∙ append_assoc m ((p, q) ∷ []) (resting ls))
]

-- An ascending side is stored as it is, but for levels of size 0.
pub insert_all-resting : (ls : List Level) → IsSorted ls → insert_all ls [] ≡ resting ls
insert_all-resting ls h = append_ascending ls [] h tt

-- Under `yes_leg` the NO side comes as YES asks.
pub as_asks_yes_leg : (ls : List Level) → as_asks yes_leg ls ≡ ls
unfolding yes_ask_price_for
as_asks_yes_leg [] = refl
as_asks_yes_leg (l ∷ ls) = ap (◌∷◌ l) (as_asks_yes_leg ls)

-- The first list turned round, before the second.
rev_onto : LevelMap → LevelMap → LevelMap
rev_onto [] m = m
rev_onto (l ∷ ls) m = rev_onto ls (l ∷ m)

rev_onto-reverse : (ls m : LevelMap) → rev_onto ls m ≡ reverse ls ++ m
unfolding rev_onto
rev_onto-reverse [] m = refl
rev_onto-reverse (l ∷ ls) m =
    rev_onto-reverse ls (l ∷ m) ∙ rw (reverse-cons l ls, append_assoc) refl

-- The next NO level is an ask below all of the map.
abbrev Fits : List Level → LevelMap → Type 0
Fits [] m = Unit
Fits ((p, q) ∷ ls) m = Above (complement p) m

abbrev AllInDollar : List Level → Type 0
AllInDollar = All (λ l. InDollar l.0)

Fits-next :
    (p : Px) (q : Qty) (ls : List Level) (m : LevelMap)
    → InDollar p
    → AllInDollar ls
    → Above p ls
    → Above (complement p) m
    → Fits ls m × Fits ls ((complement p, q) ∷ m)
Fits-next p q [] m hp hs a f = (tt, tt)
Fits-next p q ((p', q') ∷ ls) m hp hs a f =
    let lower = complement-lt p p' hp hs.0 a.0 in
    (Above-mono (complement p') (complement p) m (omega (arith, lower)) f, (lower, f))

-- Ascending NO levels are descending asks: each goes to the front.
prepend_descending :
    (ls : List Level) (m : LevelMap)
    → AllInDollar ls
    → IsSorted ls
    → Fits ls m
    → insert_all (as_asks no_leg ls) m ≡ rev_onto (map complement_level (resting ls)) m
unfolding rev_onto yes_ask_price_for
prepend_descending [] m d s f = refl
prepend_descending ((p, q) ∷ ls) m d s f =
    let (skip, next) = Fits-next p q ls m d.0 d.1 s f in
    elim (Bool-cases (is_zero q)) [
      | inl z ↦
          rw (z, as_asks, insert_all, resting)
            (prepend_descending ls m d.1 (tail-IsSorted p ls s) skip)
      | inr z ↦
          rw (z, as_asks, insert_all, resting)
            (ap (insert_all (as_asks no_leg ls)) (insert_front (complement p) q m f)
              ∙ prepend_descending ls ((complement p, q) ∷ m) d.1 (tail-IsSorted p ls s) next)
    ]

-- Under `no_leg` an ascending NO side is stored turned round, at the complementary prices.
pub insert_all-no_leg :
    (ls : List Level)
    → AllInDollar ls
    → IsSorted ls
    → insert_all (as_asks no_leg ls) [] ≡ reverse (map complement_level (resting ls))
insert_all-no_leg ls d s =
    prepend_descending ls [] d s (start ls) ∙ rev_onto-reverse _ [] ∙ append-nil _
  where
    start : (ls : List Level) → Fits ls []
    start [] = tt
    start (l ∷ ls) = tt

map-reverse : (f : Level → Level) (ls : LevelMap) → map f (reverse ls) ≡ reverse (map f ls)
map-reverse f [] = refl
map-reverse f (l ∷ ls) =
    rw (reverse-cons l ls, reverse-cons (f l) (map f ls), map-append, map-reverse f ls) refl

-- Complementing twice gives back the levels that were sent.
pub complement_twice :
    (ls : List Level)
    → AllInDollar ls
    → map complement_level (reverse (map complement_level (resting ls))) ≡ reverse (resting ls)
complement_twice ls d =
    map-reverse complement_level (map complement_level (resting ls)) ∙ ap reverse (twice ls d)
  where
    twice :
        (ls : List Level)
        → AllInDollar ls
        → map complement_level (map complement_level (resting ls)) ≡ resting ls
    twice [] d = refl
    twice ((p, q) ∷ ls) d = elim (Bool-cases (is_zero q)) [
      | inl z ↦ rw (z, resting) (twice ls d.1)
      | inr z ↦
          rw (z, resting)
            (ap₂ (λ p' rest. (p', q) ∷ rest) ((complement_exact p d.0).2) (twice ls d.1))
    ]
