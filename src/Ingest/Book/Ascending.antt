-- ===== src/Ingest/Book/Ascending.antt =====
-- The order test of a snapshot's sides, against sortedness stated on its own.
use kalshi_alpha.Prelude.{◌≡◌, ◌↔◌, refl, [], ◌∷◌, List, arith, ok}
use kalshi_alpha.Prelude.Text.{Text}
use kalshi_alpha.Ingest.Book.Levels.{Level, IsSorted}
use kalshi_alpha.Ingest.Book.Types.{OrderBook}
use kalshi_alpha.Ingest.Book.Pricing.{Convention}
use kalshi_alpha.Ingest.Book.{windows, check_windows, assert_ascending}

sound :
    (market side : Text) (ls : List Level)
    → check_windows market side (windows ls) ≡ ok tt
    → IsSorted ls
unfolding check_windows
sound market side [] h = tt
sound market side (x ∷ []) h = tt
sound market side ((p, q) ∷ (p', q') ∷ ls) h = ground (arith, sound market side ((p', q') ∷ ls))

complete :
    (market side : Text) (ls : List Level)
    → IsSorted ls
    → check_windows market side (windows ls) ≡ ok tt
unfolding check_windows
complete market side [] h = refl
complete market side (x ∷ []) h = refl
complete market side ((p, q) ∷ (p', q') ∷ ls) h =
    ground (arith, complete market side ((p', q') ∷ ls), h.0, h.1)

-- A side is accepted exactly when its prices ascend strictly: no price is repeated and none comes
-- after a higher one.
pub assert_ascending_iff :
    {c : Convention} (b : OrderBook c) (ls : List Level) (side : Text)
    → (assert_ascending b ls side ≡ ok tt) ↔ IsSorted ls
unfolding assert_ascending
assert_ascending_iff b ls side = (sound b.market.text side ls, complete b.market.text side ls)
