-- ===== src/Store/Encode/Conforming.antt =====
-- The rows of crates/store/src/encode.rs fit the schemas of crates/store/src/schema.rs.
pub mod Prices
use kalshi_alpha.Prelude.{◌≡◌, refl, Bool, true, Option, none, some, List, [], ◌∷◌, ℤ}
use kalshi_alpha.Prelude.Text.{Text, codes}
use kalshi_alpha.Store.Channel.{
  orderbook_snapshot, orderbook_delta, ticker, trade, market_lifecycle, event_fee_update,
  price_ranges, unparsed, control,
}
use kalshi_alpha.Store.Schema.{DataType, utf8, int64, int32, boolean, timestamp, Field, schema}
use kalshi_alpha.Store.Json.{Json}
use kalshi_alpha.Store.Encode.{
  Cell, Row, null_cell, text_cell, int_cell, int32_cell, time_cell, bool_cell, cell_of, StoreRecord,
  str_field, body,
}
use kalshi_alpha.Store.Encode.Rows.{
  snapshot_row, level_rows, delta_row, ticker_cells, ticker_row, trade_cells, trade_row,
  lifecycle_row, fee_update_row, price_ranges_row, unparsed_row, control_row,
}

-- A cell has the type of its column, and is null only where that may be.
abbrev pub Fits : DataType → Bool → Cell → Type 0
Fits t nullable null_cell = nullable ≡ true
Fits t nullable (text_cell s) = t ≡ utf8
Fits t nullable (int_cell i) = t ≡ int64
Fits t nullable (int32_cell i) = t ≡ int32
Fits t nullable (time_cell i) = t ≡ timestamp
Fits t nullable (bool_cell b) = t ≡ boolean

abbrev pub Conforms : List Field → Row → Type 0
Conforms [] [] = Unit
Conforms [] (c ∷ cs) = ⊥
Conforms (f ∷ fs) [] = ⊥
Conforms (f ∷ fs) (c ∷ cs) = Fits f.data_type f.nullable c × Conforms fs cs

pub text-Fits : (o : Option Text) → Fits utf8 true (cell_of text_cell o)
text-Fits none = refl
text-Fits (some t) = refl

pub int-Fits : (o : Option ℤ) → Fits int64 true (cell_of int_cell o)
int-Fits none = refl
int-Fits (some i) = refl

pub int32-Fits : (o : Option ℤ) → Fits int32 true (cell_of int32_cell o)
int32-Fits none = refl
int32-Fits (some i) = refl

pub time-Fits : (o : Option ℤ) → Fits timestamp true (cell_of time_cell o)
time-Fits none = refl
time-Fits (some i) = refl

pub bool-Fits : (o : Option Bool) → Fits boolean true (cell_of bool_cell o)
bool-Fits none = refl
bool-Fits (some b) = refl

module _ (json : Json) (session_id : Text) where
  pub fee_update_row-Conforms :
      (r : StoreRecord json) → Conforms (schema event_fee_update) (fee_update_row json session_id r)
  unfolding schema fee_update_row
  fee_update_row-Conforms r = (
    refl,
    (
      int-Fits _,
      (refl, (int-Fits _, (int-Fits _, (refl, (refl, (text-Fits _, (text-Fits _, tt))))))),
    ),
  )

  pub lifecycle_row-Conforms :
      (r : StoreRecord json) → Conforms (schema market_lifecycle) (lifecycle_row json session_id r)
  unfolding schema lifecycle_row
  lifecycle_row-Conforms r = (
    refl,
    (
      int-Fits _,
      (
        refl,
        (
          int-Fits _,
          (
            int-Fits _,
            (
              refl,
              (
                refl,
                (
                  refl,
                  (
                    text-Fits _,
                    (
                      text-Fits _,
                      (
                        int-Fits _,
                        (
                          int-Fits _,
                          (
                            int-Fits _,
                            (int-Fits _, (int-Fits _, (bool-Fits _, (text-Fits _, tt)))),
                          ),
                        ),
                      ),
                    ),
                  ),
                ),
              ),
            ),
          ),
        ),
      ),
    ),
  )

  pub price_ranges_row-Conforms :
      (r : StoreRecord json) → Conforms (schema price_ranges) (price_ranges_row json session_id r)
  unfolding schema price_ranges_row
  price_ranges_row-Conforms r = (
    refl,
    (
      int-Fits _,
      (
        refl,
        (
          int-Fits _,
          (
            int-Fits _,
            (
              refl,
              (refl, (refl, (time-Fits _, (text-Fits _, (refl, (refl, (int32-Fits _, tt))))))),
            ),
          ),
        ),
      ),
    ),
  )

  pub unparsed_row-Conforms :
      (r : StoreRecord json) → Conforms (schema unparsed) (unparsed_row json session_id r)
  unfolding schema unparsed_row
  unparsed_row-Conforms r =
      (refl, (refl, (refl, (int-Fits _, (int-Fits _, (refl, (text-Fits _, (text-Fits _, tt))))))))

  pub control_row-Conforms :
      (r : StoreRecord json) → Conforms (schema control) (control_row json session_id r)
  unfolding schema control_row
  control_row-Conforms r = (
    refl,
    (
      refl,
      (
        refl,
        (
          int-Fits _,
          (int-Fits _, (refl, (text-Fits _, (text-Fits _, (int32-Fits _, (text-Fits _, tt)))))),
        ),
      ),
    ),
  )
