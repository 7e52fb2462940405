-- ===== src/Store/Encode/Complete.antt =====
-- `encode` of crates/store/src/encode.rs gives a batch of the expected rows.
use kalshi_alpha.Prelude.{
  ℕ, suc, ◌+◌, ◌≡◌, refl, ap, ap₂, ◌∙◌, Bool, true, Option, none, some, List, [], ◌∷◌, ◌++◌, map,
  length, length-append, All, All-append, ◌==◌, if◌then◌else◌, ok, ℤ, Exec, done, Bool-cases, inl,
  inr,
}
use kalshi_alpha.Prelude.Text.{Text, codes}
use kalshi_alpha.Store.Channel.{
  Channel, orderbook_snapshot, orderbook_delta, ticker, trade, market_lifecycle, event_fee_update,
  price_ranges, unparsed, control,
}
use kalshi_alpha.Store.Schema.{Field, schema}
use kalshi_alpha.Store.Json.{Json}
use kalshi_alpha.Store.Encode.{Row, null_cell, StoreRecord, body, exchange_ts}
use kalshi_alpha.Store.Encode.Rows.{
  level_row, level_rows, side_rows, snapshot_rows, ticker_cells, ticker_row, trade_cells, trade_row,
  levels_of, is_level, level_count, count_levels, count_side, nth_text,
}
use kalshi_alpha.Store.Encode.Batches.{
  at_least_one, each_exec, all_rows, encode_rows, sum_levels, expected_rows, encode,
}
use kalshi_alpha.Store.Encode.Conforming.{
  Conforms, lifecycle_row-Conforms, fee_update_row-Conforms, price_ranges_row-Conforms,
  unparsed_row-Conforms, control_row-Conforms,
}
use kalshi_alpha.Store.Encode.Conforming.Prices.{
  HasPair, snapshot_row-Conforms, delta_row-Conforms, ticker_cells-Conforms, trade_cells-Conforms,
}

module _ (json : Json) (session_id : Text) where
  -- Rows of the schema, so many of them.
  abbrev pub Batch : Channel → ℕ → List Row → Type 0
  Batch channel n rows = All (Conforms (schema channel)) rows × (length rows ≡ n)

  level_row-Batch :
      (r : StoreRecord json) (side : Text) (index : ℕ) (o : Option (List json.Value)) (n : ℕ)
      (rows : List Row)
      → Batch orderbook_snapshot n rows
      → Batch orderbook_snapshot
          (if is_level json o then suc n else n)
          (level_row json session_id r side index o rows)
  level_row-Batch r side index none n rows h = h
  level_row-Batch r side index (some pair) n rows h = (
    (
      snapshot_row-Conforms json session_id r _ _ (nth_text json 0 pair) (nth_text json 1 pair) refl
          refl,
      h.0,
    ),
    ap suc h.1,
  )

  level_rows-Batch :
      (r : StoreRecord json) (side : Text) (index : ℕ) (levels : List json.Value)
      → Batch orderbook_snapshot
          (count_levels json levels)
          (level_rows json session_id r side index levels)
  unfolding level_rows
  level_rows-Batch r side index [] = (tt, refl)
  level_rows-Batch r side index (level ∷ levels) =
      level_row-Batch r side index (json.as_array level) _ _
        (level_rows-Batch r side (suc index) levels)

  side_rows-Batch :
      (r : StoreRecord json) (side : Text) (o : Option (List json.Value))
      → Batch orderbook_snapshot (count_side json o) (side_rows json session_id r side o)
  side_rows-Batch r side none = (tt, refl)
  side_rows-Batch r side (some levels) = level_rows-Batch r side 0 levels

  append-Batch :
      (channel : Channel) (n m : ℕ) (xs ys : List Row)
      → Batch channel n xs
      → Batch channel m ys
      → Batch channel (n + m) (xs ++ ys)
  append-Batch channel n m xs ys h k = (
    All-append (Conforms (schema channel)) xs ys h.0 k.0,
    length-append xs ys ∙ ap₂ (λ a b. a + b) h.1 k.1,
  )

  if-Batch :
      (n : ℕ) (xs ys : List Row)
      → Batch orderbook_snapshot 1 xs
      → Batch orderbook_snapshot n ys
      → Batch orderbook_snapshot (at_least_one n) (if n == 0 then xs else ys)
  if-Batch n xs ys h k = elim (Bool-cases (n == 0)) [ inl e ↦ rw e h | inr e ↦ rw e k ]

  snapshot_rows-Batch :
      (r : StoreRecord json)
      → Batch orderbook_snapshot
          (at_least_one (level_count json (body json r)))
          (snapshot_rows json session_id r)
  unfolding snapshot_rows level_count
  snapshot_rows-Batch r =
      let msg = body json r in
      if-Batch _ _ _
        (
          (snapshot_row-Conforms json session_id r null_cell null_cell none none refl refl, tt),
          refl,
        )
        (append-Batch orderbook_snapshot _ _ _ _
          (side_rows-Batch r (codes "yes") (levels_of json msg (codes "yes_dollars_fp")))
          (side_rows-Batch r (codes "no") (levels_of json msg (codes "no_dollars_fp"))))

  all_rows-Batch :
      (rs : List (StoreRecord json))
      → Batch orderbook_snapshot
          (sum_levels json rs)
          (all_rows json (snapshot_rows json session_id) rs)
  all_rows-Batch [] = (tt, refl)
  all_rows-Batch (r ∷ rs) =
      append-Batch orderbook_snapshot _ _ _ _ (snapshot_rows-Batch r) (all_rows-Batch rs)

  map-Batch :
      (channel : Channel) (P : StoreRecord json → Type 0) (row : StoreRecord json → Row)
      (rs : List (StoreRecord json))
      → ((r : StoreRecord json) → P r → Conforms (schema channel) (row r))
      → All P rs
      → Batch channel (length rs) (map row rs)
  map-Batch channel P row [] h p = (tt, refl)
  map-Batch channel P row (r ∷ rs) h p =
      let rest = map-Batch channel P row rs h p.1 in ((h r p.0, rest.0), ap suc rest.1)

  -- The time of a record is no overflow.
  abbrev pub HasTime : StoreRecord json → Type 0
  HasTime r = (ts : Option ℤ) × (exchange_ts json (body json r) ≡ done ts)

  each_exec-Batch :
      (channel : Channel) (row : StoreRecord json → Exec Row) (rs : List (StoreRecord json))
      → ((r : StoreRecord json)
          → HasTime r
          → (x : Row) × ((row r ≡ done x) × Conforms (schema channel) x))
      → All HasTime rs
      → (rows : List Row) × ((each_exec json row rs ≡ done rows) × Batch channel (length rs) rows)
  each_exec-Batch channel row [] h p = ([], (refl, (tt, refl)))
  each_exec-Batch channel row (r ∷ rs) h p =
      let (x, (e, c)) = h r p.0 in
      let (rows, (e', (cs, n))) = each_exec-Batch channel row rs h p.1 in
      (x ∷ rows, (rw (e, e') refl, ((c, cs), ap suc n)))

  ticker_row-done :
      (r : StoreRecord json)
      → HasTime r
      → (x : Row) × ((ticker_row json session_id r ≡ done x) × Conforms (schema ticker) x)
  unfolding ticker_row
  ticker_row-done r (ts, e) =
      (ticker_cells json session_id r ts, (rw e refl, ticker_cells-Conforms json session_id r ts))

  trade_row-done :
      (r : StoreRecord json)
      → HasTime r
      → (x : Row) × ((trade_row json session_id r ≡ done x) × Conforms (schema trade) x)
  unfolding trade_row
  trade_row-done r (ts, e) =
      (trade_cells json session_id r ts, (rw e refl, trade_cells-Conforms json session_id r ts))

  -- What the channel needs of a record: a delta has its texts, and the seconds of a ticker or a
  -- trade are no overflow as milliseconds.
  abbrev pub Ready : Channel → StoreRecord json → Type 0
  Ready orderbook_delta r = HasPair json session_id r
  Ready ticker r = HasTime r
  Ready trade r = HasTime r
  Ready channel r = Unit

  encode_rows-Batch :
      (channel : Channel) (rs : List (StoreRecord json))
      → All (Ready channel) rs
      → (rows : List Row) × ((encode_rows json channel session_id rs ≡ done rows)
          × Batch channel (expected_rows json channel rs) rows)
  unfolding encode_rows expected_rows
  encode_rows-Batch orderbook_snapshot rs h = (_, (refl, all_rows-Batch rs))
  encode_rows-Batch orderbook_delta rs h = (
    _,
    (
      refl,
      map-Batch orderbook_delta (HasPair json session_id) _ rs
          (λ r p. delta_row-Conforms json session_id r p) h,
    ),
  )
  encode_rows-Batch ticker rs h =
      each_exec-Batch ticker (ticker_row json session_id) rs (λ r p. ticker_row-done r p) h
  encode_rows-Batch trade rs h =
      each_exec-Batch trade (trade_row json session_id) rs (λ r p. trade_row-done r p) h
  encode_rows-Batch market_lifecycle rs h = (
    _,
    (
      refl,
      map-Batch market_lifecycle (λ r. Unit) _ rs (λ r p. lifecycle_row-Conforms json session_id r)
          h,
    ),
  )
  encode_rows-Batch event_fee_update rs h = (
    _,
    (
      refl,
      map-Batch event_fee_update (λ r. Unit) _ rs (λ r p. fee_update_row-Conforms json session_id r)
          h,
    ),
  )
  encode_rows-Batch price_ranges rs h = (
    _,
    (
      refl,
      map-Batch price_ranges (λ r. Unit) _ rs (λ r p. price_ranges_row-Conforms json session_id r)
          h,
    ),
  )
  encode_rows-Batch unparsed rs h = (
    _,
    (refl, map-Batch unparsed (λ r. Unit) _ rs (λ r p. unparsed_row-Conforms json session_id r) h),
  )
  encode_rows-Batch control rs h = (
    _,
    (refl, map-Batch control (λ r. Unit) _ rs (λ r p. control_row-Conforms json session_id r) h),
  )

  module _ (accepts : List Field → List Row → Bool)
      (accepts_rows : (fs : List Field) (rows : List Row)
        → All (Conforms fs) rows
        → accepts fs rows ≡ true) where
    -- When Arrow accepts rows that fit a schema, the deltas among the records have their price and
    -- their change as texts, and no time in seconds overflows, `encode` of some records is a batch
    -- of the rows that `expected_rows` counts, and each of them fits the schema of the channel.
    pub encode_lem :
        (channel : Channel) (r : StoreRecord json) (rs : List (StoreRecord json))
        → All (Ready channel) (r ∷ rs)
        → (rows : List Row) × ((encode json accepts channel session_id (r ∷ rs)
              ≡ done (ok (some rows)))
            × Batch channel (expected_rows json channel (r ∷ rs)) rows)
    unfolding encode
    encode_lem channel r rs h =
        let (rows, (e, b)) = encode_rows-Batch channel (r ∷ rs) h in
        (rows, (rw (e, accepts_rows (schema channel) rows b.0) refl, b))
