-- ===== src/Daemon/Subscribing/Fresh.antt =====
-- Which markets `subscribe_markets` of bin/capture.rs takes, and the books that it opens.
use kalshi_alpha.Prelude.{
  ℕ, zero, suc, ◌-◌, ◌≡◌, refl, sym, ap, true, false, not, ◌&&◌, ◌||◌, List, [], ◌∷◌, ◌++◌, All,
  arith, Bool-cases, inl, inr,
}
use kalshi_alpha.Prelude.Text.{Text, text_eq, text_eq_refl, text_eq_sound}
use kalshi_alpha.Ingest.Book.AnyBook.{AnyBook, new_any}
use kalshi_alpha.Ingest.Client.Discovery.{contains_text}
use kalshi_alpha.Ingest.Client.Discovery.Unique.{IsUnique}
use kalshi_alpha.Ingest.Connection.{PricingConvention, use_yes_price}
use kalshi_alpha.Daemon.Subscribing.{
  Books, contains_key, insert_book, fresh_among, chunks_from, chunks, ticker_or_invalid, open_books,
}

pub contains-append :
    (m : Text) (xs ys : List Text)
    → contains_text m (xs ++ ys) ≡ contains_text m xs || contains_text m ys
contains-append m [] ys = refl
contains-append m (x ∷ xs) ys = ground (arith, contains-append m xs ys)

-- No text is in both lists.
abbrev pub Apart : List Text → List Text → Type 0
Apart xs ys = (m : Text) → contains_text m xs ≡ true → contains_text m ys ≡ false

pub IsUnique-append :
    (xs ys : List Text) → IsUnique xs → IsUnique ys → Apart xs ys → IsUnique (xs ++ ys)
IsUnique-append [] ys hx hy a = hy
IsUnique-append (x ∷ xs) ys hx hy a = (
  ground (arith, hx.0, contains-append x xs ys, a x, text_eq_refl x),
  IsUnique-append xs ys hx.1 hy λ m h. ground (arith, a m),
)

pub IsUnique-split :
    (xs ys : List Text) → IsUnique (xs ++ ys) → IsUnique xs × IsUnique ys × Apart xs ys
IsUnique-split [] ys h = (tt, h, λ m e. cc)
IsUnique-split (x ∷ xs) ys h =
    let (ux, uy, a) = IsUnique-split xs ys h.1 in
    (
      (ground (arith, h.0, contains-append x xs ys), ux),
      uy,
      λ m e. ground (arith, h.0, contains-append x xs ys, a m, text_eq_sound x m),
    )

pub contains-fresh_among :
    (m : Text) (books : Books) (ms seen : List Text)
    → contains_text m (fresh_among books ms seen)
      ≡ (contains_text m ms && not (contains_key m books) && not (contains_text m seen))
unfolding fresh_among
contains-fresh_among m books [] seen = refl
contains-fresh_among m books (x ∷ ms) seen = ground (
  arith,
  contains-fresh_among m books ms (x ∷ seen),
  contains-fresh_among m books ms seen,
  text_eq_sound x m,
)

pub fresh_among-IsUnique :
    (books : Books) (ms seen : List Text) → IsUnique (fresh_among books ms seen)
unfolding fresh_among
fresh_among-IsUnique books [] seen = tt
fresh_among-IsUnique books (x ∷ ms) seen =
    elim (Bool-cases (not (contains_key x books) && not (contains_text x seen))) [
      | inl e ↦ rw e (
        ground (arith, contains-fresh_among x books ms (x ∷ seen), text_eq_refl x),
        fresh_among-IsUnique books ms (x ∷ seen),
      )
      | inr e ↦ rw e (fresh_among-IsUnique books ms seen)
    ]

abbrev pub flat : List (List Text) → List Text
flat [] = []
flat (c ∷ cs) = c ++ flat cs

flat-chunks :
    (size room : ℕ) (ms : List Text)
    → (chunks_from size room ms).0 ++ flat (chunks_from size room ms).1 ≡ ms
unfolding chunks_from
flat-chunks size room [] = refl
flat-chunks size zero (m ∷ ms) = ap (λ l. m ∷ l) (flat-chunks size (size - 1) ms)
flat-chunks size (suc room) (m ∷ ms) = ap (λ l. m ∷ l) (flat-chunks size room ms)

chunks_zero : (size : ℕ) (ms : List Text) → (chunks_from size zero ms).0 ≡ []
unfolding chunks_from
chunks_zero size [] = refl
chunks_zero size (m ∷ ms) = refl

pub flat_all : (size : ℕ) (ms : List Text) → flat (chunks size ms) ≡ ms
flat_all size ms = rw (chunks_zero size ms) at (flat-chunks size zero ms)

contains-insert :
    (m k : Text) (b : AnyBook) (books : Books)
    → contains_key m (insert_book k b books) ≡ text_eq k m || contains_key m books
unfolding contains_key insert_book
contains-insert m k b [] = refl
contains-insert m k b ((j, a) ∷ books) =
    ground (arith, contains-insert m k b books, text_eq_sound j k, text_eq_sound k m)

pub contains-open :
    (convention : PricingConvention) (m : Text) (ms : List Text) (books : Books)
    → contains_key m (open_books convention ms books) ≡ contains_text m ms || contains_key m books
unfolding open_books
contains-open convention m [] books = refl
contains-open convention m (k ∷ ms) books =
    let b = new_any (ticker_or_invalid k) (use_yes_price convention) in
    ground
      (arith, contains-open convention m ms (insert_book k b books), contains-insert m k b books)

-- Every book is as it was opened.
abbrev pub AreOpened : PricingConvention → Books → Type 0
AreOpened convention = All (λ e. e.1 ≡ new_any (ticker_or_invalid e.0) (use_yes_price convention))

insert-AreOpened :
    (convention : PricingConvention) (m : Text) (books : Books)
    → AreOpened convention books
    → AreOpened convention
        (insert_book m (new_any (ticker_or_invalid m) (use_yes_price convention)) books)
unfolding insert_book
insert-AreOpened convention m [] h = (refl, tt)
insert-AreOpened convention m ((k, a) ∷ books) h = elim (Bool-cases (text_eq k m)) [
  | inl e ↦ rw e (
    ap (λ t. new_any (ticker_or_invalid t) (use_yes_price convention)) (sym (text_eq_sound k m e)),
    h.1,
  )
  | inr e ↦ rw e (h.0, insert-AreOpened convention m books h.1)
]

pub open-AreOpened :
    (convention : PricingConvention) (ms : List Text) (books : Books)
    → AreOpened convention books
    → AreOpened convention (open_books convention ms books)
unfolding open_books
open-AreOpened convention [] books h = h
open-AreOpened convention (m ∷ ms) books h =
    open-AreOpened convention ms
      (insert_book m (new_any (ticker_or_invalid m) (use_yes_price convention)) books)
      (insert-AreOpened convention m books h)
