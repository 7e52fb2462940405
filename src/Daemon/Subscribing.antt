-- ===== src/Daemon/Subscribing.antt =====
-- bin/capture.rs: `markets_needing_subscription` and `subscribe_markets`. The `HashMap` of books is
-- the list of its entries. The pause between commands changes no state.
pub mod Fresh
pub mod Once
use kalshi_alpha.Prelude.{
  ℕ, zero, suc, ◌-◌, Bool, true, false, not, ◌&&◌, ◌||◌, List, [], ◌∷◌, length, ltb, if◌then◌else◌,
  Result, ok, err,
}
use kalshi_alpha.Prelude.Text.{Text, codes, text_eq}
use kalshi_alpha.Common.Ticker.{Ticker, parse}
use kalshi_alpha.Ingest.Book.AnyBook.{AnyBook, new_any}
use kalshi_alpha.Ingest.Client.Discovery.{contains_text}
use kalshi_alpha.Ingest.Connection.{
  PricingConvention, use_yes_price, WsError, JsonWriter, Socket, Connection, subscribe,
}

abbrev pub Books : Type 0
Books = List (Text × AnyBook)

-- `HashMap::contains_key` and `HashMap::insert`
unfoldable pub contains_key : Text → Books → Bool
contains_key m [] = false
contains_key m ((k, b) ∷ books) = text_eq k m || contains_key m books

unfoldable pub insert_book : Text → AnyBook → Books → Books
insert_book m b [] = (m, b) ∷ []
insert_book m b ((k, a) ∷ books) =
    if text_eq k m then (k, b) ∷ books else (k, a) ∷ insert_book m b books

-- The two filters, with what the second has seen.
unfoldable pub fresh_among : Books → List Text → (seen : List Text) → List Text
unfolding contains_key
fresh_among books [] seen = []
fresh_among books (m ∷ ms) seen =
    let is_fresh = not (contains_key m books) && not (contains_text m seen) in
    let rest = fresh_among books ms (if is_fresh then m ∷ seen else seen) in
    if is_fresh then m ∷ rest else rest

unfoldable pub markets_needing_subscription : Books → List Text → List Text
unfolding fresh_among
markets_needing_subscription books markets = fresh_among books markets []

-- `slice::chunks`: what goes to the chunk under way, which has some room, and the chunks behind it.
unfoldable pub chunks_from : ℕ → (room : ℕ) → List Text → List Text × List (List Text)
chunks_from size room [] = ([], [])
chunks_from size zero (m ∷ ms) =
    let (chunk, chunks) = chunks_from size (size - 1) ms in ([], (m ∷ chunk) ∷ chunks)
chunks_from size (suc room) (m ∷ ms) =
    let (chunk, chunks) = chunks_from size room ms in (m ∷ chunk, chunks)

abbrev pub chunks : ℕ → List Text → List (List Text)
chunks size ms = (chunks_from size zero ms).1

-- `shard_size.max(1)`
abbrev pub at_least_one : ℕ → ℕ
at_least_one n = if ltb n 1 then 1 else n

-- `unreachable!()` behind the text `INVALID`, which parses to itself, is left out.
unfoldable pub ticker_or_invalid : Text → Ticker
unfolding parse
ticker_or_invalid m = elim (parse m) [ ok t ↦ t | err _ ↦ record { text = codes "INVALID" } ]

unfoldable pub open_books : PricingConvention → List Text → Books → Books
unfolding insert_book ticker_or_invalid new_any
open_books convention [] books = books
open_books convention (m ∷ ms) books =
    open_books convention ms
      (insert_book m (new_any (ticker_or_invalid m) (use_yes_price convention)) books)

module _ (w : JsonWriter) (socket : Socket) (channels : List Text)
    (convention : PricingConvention) where
  abbrev pub Subscribing : Type 0
  Subscribing = Connection w socket × Books

  -- `?` on a subscription, and then the books of its shard.
  abbrev pub after_shard :
      List Text
      → Books
      → (Subscribing → Subscribing × Result WsError Unit)
      → Connection w socket × Result WsError ℕ
      → Subscribing × Result WsError Unit
  after_shard shard books next (c, ok id) = next (c, open_books convention shard books)
  after_shard shard books next (c, err e) = ((c, books), err e)

  -- The loop over the shards.
  unfoldable pub subscribe_shards :
      List (List Text) → Subscribing → Subscribing × Result WsError Unit
  unfolding subscribe open_books
  subscribe_shards [] s = (s, ok tt)
  subscribe_shards (shard ∷ shards) (c, books) =
      after_shard shard books (λ s. subscribe_shards shards s)
        (subscribe w socket channels shard convention c)

  abbrev pub counted : ℕ → Subscribing × Result WsError Unit → Subscribing × Result WsError ℕ
  counted n (s, ok _) = (s, ok n)
  counted n (s, err e) = (s, err e)

  unfoldable pub subscribe_markets : ℕ → List Text → Subscribing → Subscribing × Result WsError ℕ
  unfolding markets_needing_subscription chunks_from subscribe_shards
  subscribe_markets shard_size markets (c, books) =
      let fresh = markets_needing_subscription books markets in
      counted (length fresh) (subscribe_shards (chunks (at_least_one shard_size) fresh) (c, books))
