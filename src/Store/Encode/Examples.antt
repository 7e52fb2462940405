-- ===== src/Store/Encode/Examples.antt =====
-- The encoder on a small kind of JSON, and on an Arrow that accepts the rows that fit.
use kalshi_alpha.Prelude.{
  ℕ, ◌≡◌, refl, Bool, true, false, ◌&&◌, Option, none, some, List, [], ◌∷◌, All, arith,
  if◌then◌else◌, ◌==◌, ==_iff, ok, err, ℤ, pos, done,
}
use kalshi_alpha.Prelude.Text.{Text, codes, text_eq}
use kalshi_alpha.Store.Channel.{Channel, orderbook_delta}
use kalshi_alpha.Store.Schema.{DataType, utf8, int64, int32, boolean, timestamp, Field}
use kalshi_alpha.Store.Json.{Json}
use kalshi_alpha.Store.Encode.{
  Cell, Row, null_cell, text_cell, int_cell, int32_cell, time_cell, bool_cell, StoreRecord,
}
use kalshi_alpha.Store.Encode.Batches.{batch, encode, expected_rows}
use kalshi_alpha.Store.Encode.Conforming.{Fits, Conforms}
use kalshi_alpha.Store.Encode.Complete.{Batch, Ready, encode_lem}
use kalshi_alpha.Store.Encode.Refused.{encode_delta_refused}

-- A delta, a ticker with seconds alone, and values.
pub data Sample : Type 0 where
  nothing : Sample
  delta : (price change : Option Text) → Sample
  clock : (seconds : ℤ) → Sample
  word : (text : Text) → Sample
  number : (value : ℤ) → Sample

abbrev word_of : Option Text → Option Sample
word_of none = none
word_of (some t) = some (word t)

abbrev get_sample : Sample → Text → Option Sample
get_sample (delta price change) key =
    if text_eq key (codes "msg")
    then some (delta price change)
    else if text_eq key (codes "price_dollars")
    then word_of price
    else if text_eq key (codes "delta_fp")
    then word_of change
    else none
get_sample (clock seconds) key =
    if text_eq key (codes "msg")
    then some (clock seconds)
    else if text_eq key (codes "ts")
    then some (number seconds)
    else none
get_sample nothing key = none
get_sample (word t) key = none
get_sample (number v) key = none

abbrev str_of : Sample → Option Text
str_of (word t) = some t
str_of (number v) = none
str_of nothing = none
str_of (delta price change) = none
str_of (clock seconds) = none

abbrev i64_value : Sample → Option ℤ
i64_value (number v) = some v
i64_value (word t) = none
i64_value nothing = none
i64_value (delta price change) = none
i64_value (clock seconds) = none

abbrev pub sample_json : Json
sample_json = record {
  Value = Sample;
  null_value = nothing;
  get = get_sample;
  as_str = str_of;
  as_i64 = i64_value;
  as_u64 = λ v. none;
  as_bool = λ v. none;
  as_array = λ v. none;
  as_number = λ v. none;
  to_text = λ v. [];
  from_text = λ t. none;
}

abbrev tag : DataType → ℕ
tag utf8 = 0
tag int64 = 1
tag int32 = 2
tag boolean = 3
tag timestamp = 4

abbrev fits : DataType → Bool → Cell → Bool
fits t nullable null_cell = nullable
fits t nullable (text_cell s) = tag t == 0
fits t nullable (int_cell i) = tag t == 1
fits t nullable (int32_cell i) = tag t == 2
fits t nullable (bool_cell b) = tag t == 3
fits t nullable (time_cell i) = tag t == 4

abbrev conforms : List Field → Row → Bool
conforms [] [] = true
conforms [] (c ∷ cs) = false
conforms (f ∷ fs) [] = false
conforms (f ∷ fs) (c ∷ cs) = fits f.data_type f.nullable c && conforms fs cs

abbrev pub accepts : List Field → List Row → Bool
accepts fs [] = true
accepts fs (row ∷ rows) = conforms fs row && accepts fs rows

type_of_tag : (t u : DataType) → tag t ≡ tag u → t ≡ u
type_of_tag t u h = ground (arith)

fits_complete : (t : DataType) (n : Bool) (c : Cell) → Fits t n c → fits t n c ≡ true
fits_complete t n null_cell h = h
fits_complete t n (text_cell s) h = rw h refl
fits_complete t n (int_cell i) h = rw h refl
fits_complete t n (int32_cell i) h = rw h refl
fits_complete t n (time_cell i) h = rw h refl
fits_complete t n (bool_cell b) h = rw h refl

fits_sound : (t : DataType) (n : Bool) (c : Cell) → fits t n c ≡ true → Fits t n c
fits_sound t n null_cell h = h
fits_sound t n (text_cell s) h = type_of_tag t utf8 ((==_iff (tag t) 0).0 h)
fits_sound t n (int_cell i) h = type_of_tag t int64 ((==_iff (tag t) 1).0 h)
fits_sound t n (int32_cell i) h = type_of_tag t int32 ((==_iff (tag t) 2).0 h)
fits_sound t n (time_cell i) h = type_of_tag t timestamp ((==_iff (tag t) 4).0 h)
fits_sound t n (bool_cell b) h = type_of_tag t boolean ((==_iff (tag t) 3).0 h)

conforms_complete : (fs : List Field) (row : Row) → Conforms fs row → conforms fs row ≡ true
conforms_complete [] [] h = refl
conforms_complete [] (c ∷ cs) h = absurd h
conforms_complete (f ∷ fs) [] h = absurd h
conforms_complete (f ∷ fs) (c ∷ cs) h =
    rw (fits_complete f.data_type f.nullable c h.0) (conforms_complete fs cs h.1)

conforms_sound : (fs : List Field) (row : Row) → conforms fs row ≡ true → Conforms fs row
conforms_sound [] [] h = tt
conforms_sound [] (c ∷ cs) h = absurd (cc)
conforms_sound (f ∷ fs) [] h = absurd (cc)
conforms_sound (f ∷ fs) (c ∷ cs) h =
    (fits_sound f.data_type f.nullable c (ground (arith)), conforms_sound fs cs (ground (arith)))

pub accepts_complete :
    (fs : List Field) (rows : List Row) → All (Conforms fs) rows → accepts fs rows ≡ true
accepts_complete fs [] h = refl
accepts_complete fs (row ∷ rows) h =
    rw (conforms_complete fs row h.0) (accepts_complete fs rows h.1)

accepts_sound :
    (fs : List Field) (rows : List Row) → accepts fs rows ≡ true → All (Conforms fs) rows
accepts_sound fs [] h = tt
accepts_sound fs (row ∷ rows) h =
    (conforms_sound fs row (ground (arith)), accepts_sound fs rows (ground (arith)))

abbrev pub record_of : Channel → Sample → StoreRecord sample_json
record_of channel v = record {
  channel = channel;
  received_at = pos 7;
  raw = codes "raw";
  parsed = some v;
}

abbrev pub good_delta : StoreRecord sample_json
good_delta = record_of orderbook_delta (delta (some (codes "0.4200")) (some (codes "-3.00")))

abbrev bare_delta : StoreRecord sample_json
bare_delta = record_of orderbook_delta (delta none (some (codes "5.00")))

pub good_delta-Ready : Ready sample_json (codes "s") orderbook_delta good_delta
unfolding kalshi_alpha.Store.Encode.body text_eq
good_delta-Ready = ((codes "0.4200", refl), (codes "-3.00", refl))

encode_lem_example :
    (rows : List Row) × ((encode sample_json accepts orderbook_delta
          (codes "s")
          (good_delta ∷ good_delta ∷ [])
        ≡ done (ok (some rows)))
      × Batch sample_json (codes "s") orderbook_delta 2 rows)
unfolding expected_rows
encode_lem_example =
    encode_lem sample_json (codes "s") accepts accepts_complete orderbook_delta good_delta
      (good_delta ∷ []) (good_delta-Ready, (good_delta-Ready, tt))

encode_delta_refused_example :
    encode sample_json accepts orderbook_delta (codes "s") (good_delta ∷ bare_delta ∷ [])
    ≡ done (err (batch (codes "orderbook_delta")))
unfolding kalshi_alpha.Store.Encode.body text_eq
encode_delta_refused_example =
    encode_delta_refused sample_json accepts accepts_sound (codes "s") (good_delta ∷ []) bare_delta
      [] refl
