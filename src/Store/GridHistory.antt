-- ===== src/Store/GridHistory.antt =====
-- crates/store/src/grid_history.rs: a grid observation is written when its content changed. A
-- `HashMap` is the list of its entries.
pub mod Changes
pub mod Examples
use Prim.Native.Nat.{bit_xor}
use kalshi_alpha.Prelude.{
  ℕ, zero, suc, ◌+◌, ◌-◌, ◌*◌, ◌/◌, ◌%◌, ◌^◌, Bool, true, false, ◌&&◌, Option, none, some, List, [],
  ◌∷◌, ◌++◌, length, ltb, ◌==◌, if◌then◌else◌,
}
use kalshi_alpha.Prelude.Text.{Text, codes, text_eq}

pub data GridSource : Type 0 where
  discovery lifecycle : GridSource

abbrev pub source_str : GridSource → Text
source_str discovery = codes "discovery"
source_str lifecycle = codes "lifecycle"

pub data GridVerdict : Type 0 where
  first_observation changed unchanged : GridVerdict

unfoldable pub should_write : GridVerdict → Bool
should_write first_observation = true
should_write changed = true
should_write unchanged = false

-- The UTF-8 bytes of a code point.
abbrev pub utf8_bytes : ℕ → List ℕ
utf8_bytes c =
    if ltb c 0x80
    then c ∷ []
    else if ltb c 0x800
    then (0xC0 + c / 64) ∷ (0x80 + c % 64) ∷ []
    else if ltb c 0x10000
    then (0xE0 + c / 4096) ∷ (0x80 + c / 64 % 64) ∷ (0x80 + c % 64) ∷ []
    else (0xF0 + c / 262144) ∷ (0x80 + c / 4096 % 64) ∷ (0x80 + c / 64 % 64) ∷ (0x80 + c % 64) ∷ []

unfoldable pub as_bytes : Text → List ℕ
as_bytes [] = []
as_bytes (c ∷ s) = utf8_bytes c ++ as_bytes s

-- The loop of `grid_hash`: FNV-1a on 64 bits.
unfoldable pub fnv : ℕ → List ℕ → ℕ
fnv hash [] = hash
fnv hash (byte ∷ bytes) = fnv (bit_xor hash byte * 0x100000001b3 % 2 ^ 64) bytes

abbrev pub hex_digit : ℕ → ℕ
hex_digit d = if ltb d 10 then b'0' + d else b'a' + (d - 10)

-- The last digits of a number in base 16, the first of them first.
unfoldable pub hex_digits : ℕ → ℕ → Text → Text
hex_digits zero n s = s
hex_digits (suc width) n s = hex_digits width (n / 16) (hex_digit (n % 16) ∷ s)

unfoldable pub grid_hash : Text → Text
unfolding fnv as_bytes hex_digits
grid_hash json = hex_digits 16 (fnv 0xcbf29ce484222325 (as_bytes json)) []

abbrev pub Key : Type 0
Key = Text × GridSource

abbrev pub eq_source : GridSource → GridSource → Bool
eq_source discovery discovery = true
eq_source lifecycle lifecycle = true
eq_source discovery lifecycle = false
eq_source lifecycle discovery = false

abbrev pub eq_key : Key → Key → Bool
eq_key k j = text_eq k.0 j.0 && eq_source k.1 j.1

unfoldable pub get_hash : Key → List (Key × Text) → Option Text
get_hash k [] = none
get_hash k ((j, h) ∷ m) = if eq_key j k then some h else get_hash k m

-- `HashMap::insert`
unfoldable pub insert_hash : Key → Text → List (Key × Text) → List (Key × Text)
insert_hash k h [] = (k, h) ∷ []
insert_hash k h ((j, g) ∷ m) =
    let rest = insert_hash k h m in if eq_key j k then (j, h) ∷ m else (j, g) ∷ rest

pub record GridHistory : Type 0 where
  pub last : List (Key × Text)
  pub unchanged_observations : ℕ
  pub changes_recorded : ℕ

abbrev pub empty_history : GridHistory
empty_history = record { last = []; unchanged_observations = 0; changes_recorded = 0 }

-- The three arms of `observe`, from what the map held.
abbrev pub record_hash : GridHistory → Key → Text → Option Text → GridHistory × GridVerdict
record_hash g k hash none = (
  record g { last = insert_hash k hash g.last; changes_recorded = g.changes_recorded + 1 },
  first_observation,
)
record_hash g k hash (some previous) =
    if text_eq previous hash
    then (record g { unchanged_observations = g.unchanged_observations + 1 }, unchanged)
    else (
      record g { last = insert_hash k hash g.last; changes_recorded = g.changes_recorded + 1 },
      changed,
    )

unfoldable pub observe : GridHistory → Text → GridSource → Text → GridHistory × GridVerdict
unfolding get_hash insert_hash grid_hash
observe g market source json =
    record_hash g (market, source) (grid_hash json) (get_hash (market, source) g.last)

unfoldable pub tracked_markets : GridHistory → ℕ
tracked_markets g = length g.last
