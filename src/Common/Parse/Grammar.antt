-- ===== src/Common/Parse/Grammar.antt =====
-- The texts that spell a decimal number, stated apart from the parser, and how the parser cuts them.
use kalshi_alpha.Prelude.{
  ℕ, ◌≡◌, ◌≢◌, refl, Bool, true, false, List, [], ◌∷◌, ◌++◌, arith, if◌then◌else◌, All, ℤ, signed,
  InI64,
}
use kalshi_alpha.Prelude.Text.{Text, split_on}
use kalshi_alpha.Common.Parse.{strip_minus}
use kalshi_alpha.Common.Parse.Digits.{IsDigit}
use kalshi_alpha.Common.Parse.Scale.{IsExact}

-- The fraction with its point; a number with no fraction has no point.
abbrev pub fraction : Text → Text
fraction [] = []
fraction (c ∷ f) = b'.' ∷ c ∷ f

abbrev pub spell : Bool → Text → Text → Text
spell true ip fp = b'-' ∷ (ip ++ fraction fp)
spell false ip fp = ip ++ fraction fp

-- `s` spells, at the given scale, exactly the `i64` `v`.
pub record Denotes (s : Text) (scale : ℕ) (v : ℤ) : Type 0 where
  pub negative : Bool
  pub int_digits : Text
  pub frac_digits : Text
  pub amount : ℕ
  pub spelled : s ≡ spell negative int_digits frac_digits
  pub int_some : int_digits ≢ []
  pub int_all : All IsDigit int_digits
  pub frac_all : All IsDigit frac_digits
  pub exact : IsExact scale amount int_digits frac_digits
  pub result : v ≡ signed negative amount
  pub fits : InI64 v

-- The parts behind the first, each with the separator before it.
abbrev pub behind : List Text → Text
behind [] = []
behind (p ∷ ps) = b'.' ∷ (p ++ behind ps)

pub split_join : (s : Text) → s ≡ (split_on b'.' s).0 ++ behind (split_on b'.' s).1
unfolding split_on
split_join [] = refl
split_join (c ∷ s) = ground (arith, split_join s)

pub split_digits : (s : Text) → All IsDigit s → split_on b'.' s ≡ (s, [])
unfolding split_on
split_digits [] h = refl
split_digits (c ∷ s) (hc, hs) = ground (arith, split_digits s hs)

pub split_fraction :
    (ip : Text) (f : Text)
    → All IsDigit ip
    → All IsDigit f
    → split_on b'.' (ip ++ (b'.' ∷ f)) ≡ (ip, f ∷ [])
unfolding split_on
split_fraction [] f hi hf = ground (arith, split_digits f hf)
split_fraction (c ∷ ip) f (hc, hi) hf = ground (arith, split_fraction ip f hi hf)

-- Which text `strip_minus` was given.
pub strip_minus_spell :
    (s : Text) → s ≡ (if (strip_minus s).0 then b'-' ∷ (strip_minus s).1 else (strip_minus s).1)
unfolding strip_minus
strip_minus_spell [] = refl
strip_minus_spell (c ∷ s) = ground arith

-- A text that begins with a digit has no sign.
pub strip_minus_digit : (c : ℕ) (s : Text) → IsDigit c → strip_minus (c ∷ s) ≡ (false, c ∷ s)
unfolding strip_minus
strip_minus_digit c s h = ground arith
