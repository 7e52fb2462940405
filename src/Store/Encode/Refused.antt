-- ===== src/Store/Encode/Refused.antt =====
-- Records on which `encode` of crates/store/src/encode.rs gives no batch.
use kalshi_alpha.Prelude.{
  ◌≡◌, refl, Bool, true, false, none, some, List, [], ◌∷◌, ◌++◌, map, All, err, ℤ, pos, ◌*ℤ◌,
  fits_i64, done, panics, Bool-cases, inl, inr,
}
use kalshi_alpha.Prelude.Text.{Text, codes}
use kalshi_alpha.Store.Channel.{channel_str, orderbook_delta, ticker}
use kalshi_alpha.Store.Schema.{Field, schema}
use kalshi_alpha.Store.Json.{Json}
use kalshi_alpha.Store.Encode.{Row, StoreRecord, str_field, int_field, body}
use kalshi_alpha.Store.Encode.Rows.{delta_row}
use kalshi_alpha.Store.Encode.Batches.{batch, encode}
use kalshi_alpha.Store.Encode.Conforming.{Conforms}

module _ (json : Json) (accepts : List Field → List Row → Bool) where
  All-mid :
      (P : Row → Type 0) (row : StoreRecord json → Row) (xs : List (StoreRecord json))
      (r : StoreRecord json) (ys : List (StoreRecord json))
      → All P (map row (xs ++ (r ∷ ys)))
      → P (row r)
  All-mid P row [] r ys h = h.0
  All-mid P row (x ∷ xs) r ys h = All-mid P row xs r ys h.1

  delta_row-refused :
      (session_id : Text) (r : StoreRecord json)
      → str_field json (body json r) (codes "price_dollars") ≡ none
      → Conforms (schema orderbook_delta) (delta_row json session_id r)
      → ⊥
  unfolding schema delta_row
  delta_row-refused session_id r e h = let x = rw e at h.1.1.1.1.1.1.1.1.1.0 in absurd (cc)

  encode_deltas :
      (session_id : Text) (xs : List (StoreRecord json)) (r : StoreRecord json)
      (ys : List (StoreRecord json))
      → accepts (schema orderbook_delta) (map (delta_row json session_id) (xs ++ (r ∷ ys))) ≡ false
      → encode json accepts orderbook_delta session_id (xs ++ (r ∷ ys))
        ≡ done (err (batch (channel_str orderbook_delta)))
  unfolding encode
  encode_deltas session_id [] r ys e = rw e refl
  encode_deltas session_id (x ∷ xs) r ys e = rw e refl

  -- When Arrow accepts for a schema only rows that fit it, one delta without a text as its price,
  -- wherever it stands, leaves all the deltas of its group without a batch.
  pub encode_delta_refused :
      (only : (fs : List Field) (rows : List Row) → accepts fs rows ≡ true → All (Conforms fs) rows)
      (session_id : Text) (xs : List (StoreRecord json)) (r : StoreRecord json)
      (ys : List (StoreRecord json))
      → str_field json (body json r) (codes "price_dollars") ≡ none
      → encode json accepts orderbook_delta session_id (xs ++ (r ∷ ys))
        ≡ done (err (batch (channel_str orderbook_delta)))
  encode_delta_refused only session_id xs r ys e =
      elim (Bool-cases
        (accepts (schema orderbook_delta) (map (delta_row json session_id) (xs ++ (r ∷ ys))))) [
          | inl h ↦ absurd (
              delta_row-refused session_id r e (
                All-mid (Conforms (schema orderbook_delta)) (delta_row json session_id) xs r ys
                  (only _ _ h)))
          | inr h ↦ encode_deltas session_id xs r ys h
        ]

  -- A ticker record without `ts_ms` whose `ts` in seconds overflows as milliseconds makes `encode`
  -- panic.
  pub encode_ticker_panics :
      (session_id : Text) (r : StoreRecord json) (rs : List (StoreRecord json)) (seconds : ℤ)
      → int_field json (body json r) (codes "ts_ms") ≡ none
      → int_field json (body json r) (codes "ts") ≡ some seconds
      → fits_i64 (seconds *ℤ pos 1_000) ≡ false
      → encode json accepts ticker session_id (r ∷ rs) ≡ panics
  unfolding encode
  encode_ticker_panics session_id r rs seconds e e' h = rw (e, e', h) refl
