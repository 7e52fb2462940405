-- ===== src/Store/Encode.antt =====
-- crates/store/src/encode.rs: records become the rows of a batch. Each turn of a loop appends a cell
-- to the builder of each column, so a batch is the list of its rows. Arrow's `RecordBatch::try_new`
-- is a parameter that accepts rows for a schema or not.
pub mod Rows
pub mod Conforming
pub mod Batches
pub mod Complete
pub mod Refused
pub mod Examples
use kalshi_alpha.Prelude.{
  ℕ, zero, suc, ◌+◌, ◌*◌, ◌^◌, Bool, true, false, Option, none, some, List, [], ◌∷◌, ◌++◌, ltb,
  if◌then◌else◌, Result, ok, err, ℤ, pos, negsuc, fits_i64, ◌*ℤ◌, Exec, done, panics,
}
use kalshi_alpha.Prelude.Text.{Text, codes}
use kalshi_alpha.Common.Px.{Px, parse_dollars}
use kalshi_alpha.Common.Qty.{Qty, parse_fp}
use kalshi_alpha.Store.Channel.{Channel}
use kalshi_alpha.Store.Json.{Json}

pub data Cell : Type 0 where
  null_cell : Cell
  text_cell : (text : Text) → Cell
  int_cell int32_cell time_cell : (value : ℤ) → Cell
  bool_cell : (value : Bool) → Cell

abbrev pub Row : Type 0
Row = List Cell

-- `append_option`
abbrev pub cell_of : {A : Type 0} → (A → Cell) → Option A → Cell
cell_of f none = null_cell
cell_of f (some a) = f a

abbrev pub or_else : {A : Type 0} → Option A → Option A → Option A
or_else none o = o
or_else (some a) o = some a

abbrev pub or_text : Option Text → Text → Text
or_text none default = default
or_text (some t) default = t

abbrev pub then_get : {A B : Type 0} → Option A → (A → Option B) → Option B
then_get none f = none
then_get (some a) f = f a

-- `i64::try_from` of a `u64`, and `i32::try_from` of an `i64` and of a length.
abbrev pub i64_of : ℕ → Option ℤ
i64_of n = if ltb n (2 ^ 63) then some (pos n) else none

abbrev pub i32_of : ℤ → Option ℤ
i32_of (pos n) = if ltb n (2 ^ 31) then some (pos n) else none
i32_of (negsuc n) = if ltb n (2 ^ 31) then some (negsuc n) else none

-- The price and the quantity that a text parses to.
abbrev pub ok_px : {E : Type 0} → Result E Px → Option ℤ
ok_px (ok p) = some p.micros
ok_px (err e) = none

abbrev pub ok_qty : {E : Type 0} → Result E Qty → Option ℤ
ok_qty (ok q) = some q.fp_units
ok_qty (err e) = none

-- `DualBuilder::push_price` and `push_qty`: the text as it came, and what it parses to.
unfoldable pub push_price : Option Text → Row → Row
unfolding parse_dollars
push_price value rest =
    cell_of text_cell value ∷ cell_of int_cell (then_get value λ t. ok_px (parse_dollars t)) ∷ rest

unfoldable pub push_qty : Option Text → Row → Row
unfolding parse_fp
push_qty value rest =
    cell_of text_cell value ∷ cell_of int_cell (then_get value λ t. ok_qty (parse_fp t)) ∷ rest

-- `timestamp_nanos_opt().unwrap_or(0)`
abbrev pub nanos : ℤ → ℤ
nanos at = if fits_i64 at then at else pos 0

-- `CommonColumns::push`
unfoldable pub common_cells : ℤ → Option ℤ → Text → Option ℕ → Option ℕ → Text → Row → Row
common_cells received_at exchange_ts_ms session_id sid seq raw_message rest =
    time_cell (nanos received_at)
    ∷ cell_of int_cell exchange_ts_ms
    ∷ text_cell session_id
    ∷ cell_of int_cell (then_get sid i64_of)
    ∷ cell_of int_cell (then_get seq i64_of)
    ∷ text_cell raw_message
    ∷ rest

-- `s * 1_000` on an `i64`, which panics on overflow.
abbrev pub times_thousand : ℤ → Exec (Option ℤ)
times_thousand s = if fits_i64 (s *ℤ pos 1_000) then done (some (s *ℤ pos 1_000)) else panics

module _ (json : Json) where
  pub record StoreRecord : Type 0 where
    pub channel : Channel
    pub received_at : ℤ
    pub raw : Text
    pub parsed : Option json.Value

  abbrev pub str_field : json.Value → Text → Option Text
  str_field value key = then_get (json.get value key) json.as_str

  abbrev pub int_field : json.Value → Text → Option ℤ
  int_field value key = then_get (json.get value key) json.as_i64

  abbrev pub bool_field : json.Value → Text → Option Bool
  bool_field value key = then_get (json.get value key) json.as_bool

  abbrev pub number_token : json.Value → Text → Option Text
  number_token value key = then_get (json.get value key) json.as_number

  abbrev pub or_null : Option json.Value → json.Value
  or_null none = json.null_value
  or_null (some v) = v

  unfoldable pub body : StoreRecord → json.Value
  body r = or_null (then_get r.parsed λ v. json.get v (codes "msg"))

  unfoldable pub envelope_sid : StoreRecord → Option ℕ
  envelope_sid r = then_get (then_get r.parsed λ v. json.get v (codes "sid")) json.as_u64

  unfoldable pub envelope_seq : StoreRecord → Option ℕ
  envelope_seq r = then_get (then_get r.parsed λ v. json.get v (codes "seq")) json.as_u64

  -- The columns that every row has, with the envelope's sid.
  abbrev pub common_of : StoreRecord → Option ℤ → Text → Row → Row
  common_of r exchange_ts_ms session_id rest =
      common_cells r.received_at exchange_ts_ms session_id (envelope_sid r) (envelope_seq r) r.raw
        rest

  -- `ts_ms`, or else `ts` in seconds.
  abbrev pub or_seconds : Option ℤ → Option ℤ → Exec (Option ℤ)
  or_seconds (some ms) ts = done (some ms)
  or_seconds none none = done none
  or_seconds none (some s) = times_thousand s

  unfoldable pub exchange_ts : json.Value → Exec (Option ℤ)
  unfolding ◌*ℤ◌
  exchange_ts msg = or_seconds (int_field msg (codes "ts_ms")) (int_field msg (codes "ts"))
