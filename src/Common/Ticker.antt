-- ===== src/Common/Ticker.antt =====
-- crates/common/src/ticker.rs: tickers, which name directories, and the two sides of a market.
pub mod Safety
use kalshi_alpha.Prelude.{
  ℕ, ◌+◌, ◌-◌, ◌≡◌, Bool, true, false, not, ◌&&◌, ◌||◌, none, some, List, [], ◌∷◌, map, ltb, ◌==◌,
  if◌then◌else◌, Result, ok, err, ◌>>=◌, ◌>>◌,
}
use kalshi_alpha.Prelude.Text.{
  Text, codes, byte_len, is_ascii_digit, is_ascii_lowercase, is_ascii_uppercase, find_first, any_of,
}

pub data TickerError : Type 0 where
  empty : TickerError
  invalid_char : (input : Text) (ch : ℕ) → TickerError
  unsafe_as_path : (input : Text) → TickerError
  too_long : (input : Text) → TickerError
  not_uppercase : (input : Text) → TickerError

abbrev pub max_ticker_len : ℕ
max_ticker_len = 128

pub record Ticker : Type 0 where
  pub text : Text

abbrev pub is_ascii_alphanumeric : ℕ → Bool
is_ascii_alphanumeric c = is_ascii_lowercase c || is_ascii_uppercase c || is_ascii_digit c

abbrev pub is_ticker_char : ℕ → Bool
is_ticker_char c = is_ascii_alphanumeric c || c == b'-' || c == b'.' || c == b'_'

abbrev pub to_upper : ℕ → ℕ
to_upper c = if is_ascii_lowercase c then c - 32 else c

-- `to_ascii_uppercase`
abbrev pub upper : Text → Text
upper [] = []
upper (c ∷ s) = to_upper c ∷ upper s

abbrev pub starts_with_dot : Text → Bool
starts_with_dot [] = false
starts_with_dot (c ∷ s) = c == b'.'

pub validate : Text → Result TickerError Unit
validate [] = err empty
validate (c ∷ s) =
    if ltb max_ticker_len (byte_len (c ∷ s))
    then err (too_long (c ∷ s))
    else elim (find_first (λ d. not (is_ticker_char d)) (c ∷ s)) [
      | some ch ↦ err (invalid_char (c ∷ s) ch)
      | none ↦ if starts_with_dot (c ∷ s) then err (unsafe_as_path (c ∷ s)) else ok tt
    ]

-- `Ticker::parse`
unfoldable pub parse : Text → Result TickerError Ticker
unfolding validate
parse s = do validate s; ok (record { text = upper s })

unfoldable pub parse_strict : Text → Result TickerError Ticker
unfolding validate
parse_strict s = do
  validate s
  if any_of is_ascii_lowercase s then err (not_uppercase s) else ok (record { text = s })

unfoldable pub is_canonical : Text → Bool
is_canonical raw = not (any_of is_ascii_lowercase raw)

unfoldable pub as_partition_component : Ticker → Text
as_partition_component t = t.text

pub data Side : Type 0 where
  yes_side no_side : Side

unfoldable pub opposite : Side → Side
opposite yes_side = no_side
opposite no_side = yes_side

unfoldable pub side_as_str : Side → Text
side_as_str yes_side = codes "yes"
side_as_str no_side = codes "no"
