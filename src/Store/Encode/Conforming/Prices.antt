-- ===== src/Store/Encode/Conforming/Prices.antt =====
-- The rows with prices and quantities of crates/store/src/encode.rs fit their schemas.
use kalshi_alpha.Prelude.{◌≡◌, refl, true, Option, some, ℤ}
use kalshi_alpha.Prelude.Text.{Text, codes}
use kalshi_alpha.Store.Channel.{orderbook_snapshot, orderbook_delta, ticker, trade}
use kalshi_alpha.Store.Schema.{utf8, int32, schema}
use kalshi_alpha.Store.Json.{Json}
use kalshi_alpha.Store.Encode.{Cell, StoreRecord, str_field, body}
use kalshi_alpha.Store.Encode.Rows.{
  snapshot_row, level_rows, delta_row, ticker_cells, ticker_row, trade_cells, trade_row,
}
use kalshi_alpha.Store.Encode.Conforming.{Fits, Conforms, text-Fits, int-Fits, bool-Fits}

module _ (json : Json) (session_id : Text) where
  pub ticker_cells-Conforms :
      (r : StoreRecord json) (ts : Option ℤ)
      → Conforms (schema ticker) (ticker_cells json session_id r ts)
  unfolding schema ticker_row
  ticker_cells-Conforms r ts = (
    refl,
    (
      int-Fits _,
      (
        refl,
        (
          int-Fits _,
          (
            int-Fits _,
            (
              refl,
              (
                refl,
                (
                  text-Fits _,
                  (
                    text-Fits _,
                    (
                      int-Fits _,
                      (
                        text-Fits _,
                        (
                          int-Fits _,
                          (
                            text-Fits _,
                            (
                              int-Fits _,
                              (
                                text-Fits _,
                                (
                                  int-Fits _,
                                  (
                                    text-Fits _,
                                    (
                                      int-Fits _,
                                      (text-Fits _, (int-Fits _, (text-Fits _, (int-Fits _, tt)))),
                                    ),
                                  ),
                                ),
                              ),
                            ),
                          ),
                        ),
                      ),
                    ),
                  ),
                ),
              ),
            ),
          ),
        ),
      ),
    ),
  )

  pub trade_cells-Conforms :
      (r : StoreRecord json) (ts : Option ℤ)
      → Conforms (schema trade) (trade_cells json session_id r ts)
  unfolding schema trade_row
  trade_cells-Conforms r ts = (
    refl,
    (
      int-Fits _,
      (
        refl,
        (
          int-Fits _,
          (
            int-Fits _,
            (
              refl,
              (
                text-Fits _,
                (
                  refl,
                  (
                    text-Fits _,
                    (
                      int-Fits _,
                      (
                        text-Fits _,
                        (
                          int-Fits _,
                          (
                            text-Fits _,
                            (
                              int-Fits _,
                              (text-Fits _, (text-Fits _, (text-Fits _, (bool-Fits _, tt)))),
                            ),
                          ),
                        ),
                      ),
                    ),
                  ),
                ),
              ),
            ),
          ),
        ),
      ),
    ),
  )

  -- A record of a delta has its price and its change.
  abbrev pub HasPair : StoreRecord json → Type 0
  HasPair r =
      ((price : Text) × (str_field json (body json r) (codes "price_dollars") ≡ some price))
      × ((change : Text) × (str_field json (body json r) (codes "delta_fp") ≡ some change))

  pub delta_row-Conforms :
      (r : StoreRecord json)
      → HasPair r
      → Conforms (schema orderbook_delta) (delta_row json session_id r)
  unfolding schema delta_row
  delta_row-Conforms r ((price, e), (change, e')) = (
    refl,
    (
      int-Fits _,
      (
        refl,
        (
          int-Fits _,
          (
            int-Fits _,
            (
              refl,
              (
                refl,
                (text-Fits _, (refl, (rw e refl, (int-Fits _, (rw e' refl, (int-Fits _, tt)))))),
              ),
            ),
          ),
        ),
      ),
    ),
  )

  pub snapshot_row-Conforms :
      (r : StoreRecord json) (side index : Cell) (price size : Option Text)
      → Fits utf8 true side
      → Fits int32 true index
      → Conforms (schema orderbook_snapshot) (snapshot_row json session_id r side price size index)
  unfolding schema level_rows
  snapshot_row-Conforms r side index price size h k = (
    refl,
    (
      int-Fits _,
      (
        refl,
        (
          int-Fits _,
          (
            int-Fits _,
            (
              refl,
              (
                refl,
                (
                  text-Fits _,
                  (h, (text-Fits _, (int-Fits _, (text-Fits _, (int-Fits _, (k, tt)))))),
                ),
              ),
            ),
          ),
        ),
      ),
    ),
  )
