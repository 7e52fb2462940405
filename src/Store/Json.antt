-- ===== src/Store/Json.antt =====
-- What crates/store uses of `serde_json`: values, their fields, and what they are.
use kalshi_alpha.Prelude.{ℕ, Bool, Option, List, ℤ}
use kalshi_alpha.Prelude.Text.{Text}

pub record Json : Type 1 where
  pub Value : Type 0
  pub null_value : Value
  pub get : Value → Text → Option Value
  pub as_str : Value → Option Text
  pub as_i64 : Value → Option ℤ
  pub as_u64 : Value → Option ℕ
  pub as_bool : Value → Option Bool
  pub as_array : Value → Option (List Value)
  -- The token of a number.
  pub as_number : Value → Option Text
  pub to_text : Value → Text
  pub from_text : Text → Option Value
