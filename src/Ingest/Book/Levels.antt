-- ===== src/Ingest/Book/Levels.antt =====
-- `BTreeMap<Px, Qty>` as the list of its entries in key order: what the book uses of the standard
-- library's map.
use kalshi_alpha.Prelude.{
  true, Option, none, some, List, [], ◌∷◌, if◌then◌else◌, ◌<ℤ◌, ◌≤ℤ◌, ◌++◌, ◌≡◌, subst, refl, arith,
  All, eq_of_parts,
}
use mathlib.Core.Option.{some-injective}
use kalshi_alpha.Common.Px.{Px, lt_px, eq_px}
use kalshi_alpha.Common.Qty.{Qty}

abbrev pub Level : Type 0
Level = Px × Qty

abbrev pub LevelMap : Type 0
LevelMap = List Level

-- The new entry takes the place of one at the same price.
unfoldable pub insert : Px → Qty → LevelMap → LevelMap
insert p q [] = (p, q) ∷ []
insert p q ((k, v) ∷ m) =
    if lt_px p k
    then (p, q) ∷ (k, v) ∷ m
    else if eq_px p k
    then (p, q) ∷ m
    else (k, v) ∷ insert p q m

unfoldable pub get : Px → LevelMap → Option Qty
get p [] = none
get p ((k, v) ∷ m) = if eq_px p k then some v else get p m

-- `iter().next()`
abbrev pub first : LevelMap → Option Level
first [] = none
first (l ∷ m) = some l

-- `iter().next_back()`
abbrev pub final : LevelMap → Option Level
final [] = none
final (l ∷ []) = some l
final (l ∷ l' ∷ m) = final (l' ∷ m)

-- All keys are above the price, and ascend.
abbrev pub Above : Px → LevelMap → Type 0
Above p [] = Unit
Above p ((k, v) ∷ m) = (p.micros <ℤ k.micros) × Above k m

-- The keys ascend strictly: the form of every map.
abbrev pub IsSorted : LevelMap → Type 0
IsSorted [] = Unit
IsSorted ((k, v) ∷ m) = Above k m

eq_px_micros : (a b : Px) → eq_px a b ≡ true → a.micros ≡ b.micros
eq_px_micros a b e = eq_of_parts a.micros b.micros (ground arith)

pub Above-mono : (a b : Px) (m : LevelMap) → a.micros ≤ℤ b.micros → Above b m → Above a m
Above-mono a b [] h s = tt
Above-mono a b ((k, v) ∷ m) h s = (omega (arith, s.0), s.1)

insert-Above :
    (p k : Px) (q : Qty) (m : LevelMap) → k.micros <ℤ p.micros → Above k m → Above k (insert p q m)
unfolding insert
insert-Above p k q [] h s = (h, tt)
insert-Above p k q ((k', v) ∷ m) h s =
    ground (arith, insert-Above p k' q m, Above-mono p k' m, eq_px_micros p k')

pub insert-IsSorted : (p : Px) (q : Qty) (m : LevelMap) → IsSorted m → IsSorted (insert p q m)
unfolding insert
insert-IsSorted p q [] s = tt
insert-IsSorted p q ((k, v) ∷ m) s =
    ground (arith, insert-Above p k q m, Above-mono p k m, eq_px_micros p k)

-- A key below all others goes to the front, and one above all others to the back.
pub insert_front : (p : Px) (q : Qty) (m : LevelMap) → Above p m → insert p q m ≡ (p, q) ∷ m
unfolding insert
insert_front p q [] h = refl
insert_front p q ((k, v) ∷ m) h = ground (arith, h.0)

-- All keys are below the price.
abbrev pub Below : Px → LevelMap → Type 0
Below p = All (λ l. l.0.micros <ℤ p.micros)

pub insert_back : (p : Px) (q : Qty) (m : LevelMap) → Below p m → insert p q m ≡ m ++ (p, q) ∷ []
unfolding insert
insert_back p q [] h = refl
insert_back p q ((k, v) ∷ m) h = ground (arith, h.0, insert_back p q m h.1)

Above-All : (p : Px) (m : LevelMap) → Above p m → All (λ x. p.micros ≤ℤ x.0.micros) m
Above-All p [] h = tt
Above-All p ((k, v) ∷ m) h =
    (omega (arith, h.0), Above-All p m (Above-mono p k m (omega (arith, h.0)) h.1))

-- The first level of a sorted map has its least price, and the last its greatest.
pub first_least :
    (m : LevelMap) (l : Level)
    → IsSorted m
    → first m ≡ some l
    → All (λ x. l.0.micros ≤ℤ x.0.micros) m
first_least [] l s e = tt
first_least ((k, v) ∷ m) l s e =
    subst (λ x. All (λ y. x.0.micros ≤ℤ y.0.micros) ((k, v) ∷ m)) (some-injective _ _ e)
      (omega arith, Above-All k m s)

pub final_greatest :
    (m : LevelMap) (l : Level)
    → IsSorted m
    → final m ≡ some l
    → All (λ x. x.0.micros ≤ℤ l.0.micros) m
final_greatest [] l s e = tt
final_greatest (x ∷ []) l s e =
    subst (λ z. All (λ y. y.0.micros ≤ℤ z.0.micros) (x ∷ [])) (some-injective _ _ e)
      (omega arith, tt)
final_greatest (x ∷ y ∷ m) l s e =
    let rest = final_greatest (y ∷ m) l s.1 e in (omega (arith, s.0, rest.0), rest)

pub final-some : (x : Level) (m : LevelMap) → (l : Level) × (final (x ∷ m) ≡ some l)
final-some x [] = (x, refl)
final-some x (y ∷ m) = final-some y m

pub All-final : (P : Level → Type 0) (m : LevelMap) (l : Level) → final m ≡ some l → All P m → P l
All-final P [] l e h = absurd (cc)
All-final P (x ∷ []) l e h = subst P (some-injective _ _ e) h.0
All-final P (x ∷ y ∷ m) l e h = All-final P (y ∷ m) l e h.1
