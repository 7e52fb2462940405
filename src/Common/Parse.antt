-- ===== src/Common/Parse.antt =====
-- crates/common/src/parse.rs: decimal text to scaled integer and back. The proofs are below this
-- module. `i128` arithmetic is on natural numbers, since every value is at least 0 until the sign is
-- put on; a checked step fails where the true result is above `i128::MAX`.
pub mod Digits
pub mod Scale
pub mod Grammar
pub mod Exact
pub mod Accept
pub mod RoundTrip
pub mod Examples
use mathlib.Core.List.{head?}
use kalshi_alpha.Prelude.{
  ℕ, zero, suc, ◌+◌, ◌-◌, ◌*◌, ◌/◌, ◌%◌, ◌^◌, ◌≡◌, Bool, true, false, not, Option, none, some, List,
  [], ◌∷◌, ◌++◌, ltb, ◌==◌, if◌then◌else◌, length, drop, replicate, Result, ok, err, ◌>>=◌, ◌>>◌, ℤ,
  checked_i64, signed, magnitude, is_negative,
}
use kalshi_alpha.Prelude.Text.{Text, is_ascii_digit, find_first, any_of, split_on}

abbrev pub max_scale_digits : ℕ
max_scale_digits = 18

abbrev pub i128_max : ℕ
i128_max = 2 ^ 127 - 1

pub data ParseFixedError : Type 0 where
  empty : ParseFixedError
  invalid_char : (input : Text) (ch : ℕ) → ParseFixedError
  missing_integer_digits : (input : Text) → ParseFixedError
  missing_fraction_digits : (input : Text) → ParseFixedError
  multiple_decimal_points : (input : Text) → ParseFixedError
  excess_precision : (input : Text) (scale : ℕ) (excess : Text) → ParseFixedError
  overflow : (input : Text) (scale : ℕ) → ParseFixedError
  unsupported_scale : (scale : ℕ) → ParseFixedError

pub reject_non_digits : Text → Text → Result ParseFixedError Unit
reject_non_digits part input = elim (find_first (λ c. not (is_ascii_digit c)) part) [
  | some ch ↦ err (invalid_char input ch)
  | none ↦ ok tt
]

-- `strip_prefix('-')`
pub strip_minus : Text → Bool × Text
strip_minus [] = (false, [])
strip_minus (c ∷ s) = if c == b'-' then (true, s) else (false, c ∷ s)

abbrev pub checked_i128 : ℕ → Option ℕ
checked_i128 v = if ltb i128_max v then none else some v

abbrev pub or_overflow : Text → ℕ → Option ℕ → Result ParseFixedError ℕ
or_overflow input scale none = err (overflow input scale)
or_overflow input scale (some v) = ok v

-- One round of the loop over the integer part.
pub push_digit : ℕ → ℕ → Option ℕ
push_digit v byte = if ltb i128_max (v * 10) then none else checked_i128 (v * 10 + (byte - b'0'))

-- The loop over the integer part.
pub int_loop : Text → ℕ → Option ℕ
int_loop [] v = some v
int_loop (byte ∷ rest) v = elim (push_digit v byte) [ none ↦ none | some w ↦ int_loop rest w ]

-- The loop over `0..scale_len`: a digit past the end of the text counts as 0.
pub frac_loop : ℕ → Text → ℕ → ℕ
frac_loop zero frac acc = acc
frac_loop (suc n) [] acc = frac_loop n [] (acc * 10 + 0)
frac_loop (suc n) (byte ∷ rest) acc = frac_loop n rest (acc * 10 + (byte - b'0'))

-- The part behind the point, if there is a point.
pub check_fraction : Text → Option Text → Result ParseFixedError Text
check_fraction input none = ok []
check_fraction input (some []) = err (missing_fraction_digits input)
check_fraction input (some (c ∷ f)) = do reject_non_digits (c ∷ f) input; ok (c ∷ f)

pub check_integer : Text → Text → Result ParseFixedError Unit
check_integer input [] = err (missing_integer_digits input)
check_integer input (c ∷ f) = reject_non_digits (c ∷ f) input

-- No more than one point: the iterator over the halves has at most two entries.
pub check_points : Text → List Text → Result ParseFixedError (Option Text)
check_points input [] = ok none
check_points input (frac_part ∷ []) = ok (some frac_part)
check_points input (frac_part ∷ more ∷ rest) = err (multiple_decimal_points input)

-- The arithmetic of the function, once both halves are known to be digits.
pub assemble : Text → ℕ → Bool → Text → Text → Result ParseFixedError ℤ
unfolding int_loop push_digit frac_loop
assemble input scale negative int_part frac = do
  whole ← or_overflow input scale (int_loop int_part 0)
  scaled ← or_overflow input scale (checked_i128 (whole * 10 ^ scale))
  value ← or_overflow input scale (checked_i128 (scaled + frac_loop scale frac 0))
  let excess = drop scale frac
  if any_of (λ b. not (b == b'0')) excess
      then err (excess_precision input scale excess)
      else elim (checked_i64 (signed negative value)) [
        | none ↦ err (overflow input scale)
        | some v ↦ ok v
      ]

-- From the text behind the sign on.
pub parse_body : Text → ℕ → Bool → Text → Result ParseFixedError ℤ
unfolding split_on check_points check_integer check_fraction assemble reject_non_digits
parse_body input scale negative body = do
  let (int_part, others) = split_on b'.' body
  frac_part ← check_points input others
  check_integer input int_part
  frac ← check_fraction input frac_part
  assemble input scale negative int_part frac

abbrev is_empty : Text → Bool
is_empty [] = true
is_empty (c ∷ s) = false

pub parse_scaled : Text → ℕ → Result ParseFixedError ℤ
unfolding strip_minus parse_body
parse_scaled input scale =
    if ltb max_scale_digits scale
    then err (unsupported_scale scale)
    else if is_empty input
    then err empty
    else parse_body input scale (strip_minus input).0 (strip_minus input).1

-- `format!("{n}")`, with the number itself as fuel: each round divides it by ten.
unfoldable pub decimal : ℕ → ℕ → Text
decimal zero n = (b'0' + n) ∷ []
decimal (suc fuel) n = elim (ltb n 10) [
  | true ↦ (b'0' + n) ∷ []
  | false ↦ decimal fuel (n / 10) ++ (b'0' + n % 10) ∷ []
]

-- `format!("{n:0width$}")`
unfoldable pub padded : ℕ → ℕ → Text
unfolding decimal
padded width n = replicate (width - length (decimal n n)) b'0' ++ decimal n n

pub format_scaled : ℤ → ℕ → Text
unfolding decimal padded
format_scaled value scale =
    let divisor = 10 ^ scale in
    let whole = magnitude value / divisor in
    let frac = magnitude value % divisor in
    (if is_negative value then b'-' ∷ [] else [])
    ++ (decimal whole whole ++ (b'.' ∷ padded scale frac))
