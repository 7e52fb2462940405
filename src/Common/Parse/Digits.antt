-- ===== src/Common/Parse/Digits.antt =====
-- What digits spell, and what the loops of the parser compute of them.
use native.Mathlib.Nat.{pow-suc}
use kalshi_alpha.Prelude.{
  ℕ, zero, suc, ◌+◌, ◌-◌, ◌*◌, ◌^◌, ◌≤◌, ◌<◌, ◌≡◌, refl, sym, ap, subst, ◌∙◌, false, not, some, [],
  ◌∷◌, ◌++◌, arith, ◌==◌, length, drop, All, ok,
}
use kalshi_alpha.Prelude.Text.{Text, any_of}
use kalshi_alpha.Common.Parse.{i128_max, reject_non_digits, push_digit, int_loop, frac_loop}

abbrev pub IsDigit : ℕ → Type 0
IsDigit c = (b'0' ≤ c) × (c ≤ b'9')

-- The number that the digits `s` spell behind the number `n`, with no bound.
abbrev pub value : ℕ → Text → ℕ
value n [] = n
value n (c ∷ s) = value (n * 10 + (c - b'0')) s

pub le-value : (s : Text) (n : ℕ) → n ≤ value n s
le-value [] n = omega arith
le-value (c ∷ s) n = omega (arith, le-value s (n * 10 + (c - b'0')))

pub value-append : (s t : Text) (n : ℕ) → value n (s ++ t) ≡ value (value n s) t
value-append [] t n = refl
value-append (c ∷ s) t n = value-append s t (n * 10 + (c - b'0'))

pub pow_step : (n : ℕ) → 10 ^ suc n ≡ 10 ^ n * 10
pow_step n = omega (arith, pow-suc 10 n)

pub pow_pos : (n : ℕ) → 0 < 10 ^ n
pow_pos zero = omega arith
pow_pos (suc n) = omega (arith, pow_step n, pow_pos n)

pow_regroup : (p q : ℕ) {r s : ℕ} → r ≡ p * q → s ≡ p * 10 → r * 10 ≡ s * q
pow_regroup p q e f = rw (e, f) (grind arith)

mul_one : (n : ℕ) → n ≡ 1 * n
mul_one n = omega arith

shift_step : (n d p q v : ℕ) → q ≡ p * 10 → (n * 10 + d) * p + v ≡ n * q + (d * p + v)
shift_step n d p q v e = rw e (grind arith)

-- The digit `d` before a number below `p` makes a number below `10 * p`.
digit-lt : (d p q v : ℕ) → d ≤ 9 → v < p → q ≡ p * 10 → d * p + v < q
digit-lt d p q v h k e = rw e (grind arith)

pub pow-add : (m n : ℕ) → 10 ^ (m + n) ≡ 10 ^ m * 10 ^ n
pow-add zero n = ap (λ (k : ℕ). 10 ^ k) {x = 0 + n} {y = n} (omega arith) ∙ mul_one (10 ^ n)
pow-add (suc m) n =
    ap (λ (k : ℕ). 10 ^ k) {x = suc m + n} {y = suc (m + n)} (omega arith)
    ∙ pow_step (m + n)
    ∙ pow_regroup (10 ^ m) (10 ^ n) (pow-add m n) (pow_step m)

-- `10 ^ n` as the power of a smaller exponent and of the rest.
pub pow-split : (m n : ℕ) → m ≤ n → 10 ^ n ≡ 10 ^ m * 10 ^ (n - m)
pow-split m n h = ap (λ (k : ℕ). 10 ^ k) {x = n} {y = m + (n - m)} (omega arith) ∙ pow-add m (n - m)

-- A leading digit is the number that the others stand behind.
value_cons : (c : ℕ) (s : Text) → value 0 (c ∷ s) ≡ value (c - b'0') s
value_cons c s = ap (λ (k : ℕ). value k s) {x = 0 * 10 + (c - b'0')} {y = c - b'0'} (omega arith)

pub value_shift : (s : Text) (n : ℕ) → value n s ≡ n * 10 ^ length s + value 0 s
value_shift [] n = omega arith
value_shift (c ∷ s) n =
    value_shift s (n * 10 + (c - b'0'))
    ∙ shift_step n (c - b'0') _ _ (value 0 s) (pow_step (length s))
    ∙ ap (◌+◌ (n * 10 ^ suc (length s))) (sym (value_cons c s ∙ value_shift s (c - b'0')))

pub value-lt : (s : Text) → All IsDigit s → value 0 s < 10 ^ length s
value-lt [] h = omega arith
value-lt (c ∷ s) (hc, hs) =
    subst (λ k. k < 10 ^ suc (length s)) (sym (value_cons c s ∙ value_shift s (c - b'0')))
      (digit-lt (c - b'0') _ _ (value 0 s) (omega arith) (value-lt s hs) (pow_step (length s)))

pub reject_sound : (s input : Text) → reject_non_digits s input ≡ ok tt → All IsDigit s
unfolding reject_non_digits
reject_sound [] input h = tt
reject_sound (c ∷ s) input h = ground (arith, reject_sound s input)

pub reject_complete : (s input : Text) → All IsDigit s → reject_non_digits s input ≡ ok tt
unfolding reject_non_digits
reject_complete [] input h = refl
reject_complete (c ∷ s) input h = ground (arith, reject_complete s input)

pub int_loop_sound :
    (s : Text) (v r : ℕ) → int_loop s v ≡ some r → v ≤ i128_max → (r ≡ value v s) × (r ≤ i128_max)
unfolding int_loop push_digit
int_loop_sound [] v r h k = ground arith
int_loop_sound (c ∷ s) v r h k = ground (arith, int_loop_sound s (v * 10 + (c - b'0')) r)

pub int_loop_complete : (s : Text) (v : ℕ) → value v s ≤ i128_max → int_loop s v ≡ some (value v s)
unfolding int_loop push_digit
int_loop_complete [] v h = refl
int_loop_complete (c ∷ s) v h =
    ground (arith, int_loop_complete s (v * 10 + (c - b'0')) h, le-value s (v * 10 + (c - b'0')))

pad_step : (acc p q : ℕ) → q ≡ p * 10 → (acc * 10 + 0) * p ≡ acc * q
pad_step acc p q e = rw e (grind arith)

-- Past the end of the text each round appends a 0.
frac_loop-nil : (n acc : ℕ) → frac_loop n [] acc ≡ acc * 10 ^ n
unfolding frac_loop
frac_loop-nil zero acc = omega arith
frac_loop-nil (suc n) acc =
    frac_loop-nil n (acc * 10 + 0) ∙ pad_step acc (10 ^ n) (10 ^ suc n) (pow_step n)

-- The digits that the loop reads and those behind them make up the whole fraction.
pub frac_loop_lem :
    (n : ℕ) (s : Text) (acc : ℕ)
    → value acc s * 10 ^ (n - length s)
      ≡ frac_loop n s acc * 10 ^ (length s - n) + value 0 (drop n s)
unfolding frac_loop
frac_loop_lem zero s acc =
    let e : 0 - length s ≡ 0 = omega arith in
    let f : length s - 0 ≡ length s = omega arith in rw (e, f) (omega (arith, value_shift s acc))
frac_loop_lem (suc n) [] acc =
    let e : suc n - 0 ≡ suc n = omega arith in
    let f : 0 - suc n ≡ 0 = omega arith in rw (e, f) (omega (arith, frac_loop-nil (suc n) acc))
frac_loop_lem (suc n) (c ∷ s) acc =
    let e : suc n - suc (length s) ≡ n - length s = omega arith in
    let f : suc (length s) - suc n ≡ length s - n = omega arith in
    rw (e, f) (frac_loop_lem n s (acc * 10 + (c - b'0')))

-- A text of digits spells 0 exactly when none of them is another digit than `0`.
pub zeros_value : (s : Text) → any_of (λ b. not (b == b'0')) s ≡ false → value 0 s ≡ 0
zeros_value [] h = refl
zeros_value (c ∷ s) h =
    value_cons c s
    ∙ ap (λ (k : ℕ). value k s) {x = c - b'0'} {y = 0} (ground arith)
    ∙ zeros_value s (ground arith)

digit_zero : (d p v : ℕ) → 0 < p → d * p + v ≡ 0 → (d ≡ 0) × (v ≡ 0)
digit_zero zero p v h e = omega arith
digit_zero (suc d) p v h e = absurd (grind arith)

pub value_zeros :
    (s : Text) → All IsDigit s → value 0 s ≡ 0 → any_of (λ b. not (b == b'0')) s ≡ false
value_zeros [] h e = refl
value_zeros (c ∷ s) h e = ground (
  arith,
  value_zeros s h.1,
  value_cons c s,
  value_shift s (c - b'0'),
  digit_zero (c - b'0') _ (value 0 s) (pow_pos (length s)),
)

pub All-drop : (n : ℕ) (s : Text) → All IsDigit s → All IsDigit (drop n s)
All-drop zero s h = h
All-drop (suc n) [] h = tt
All-drop (suc n) (c ∷ s) h = All-drop n s h.1

pub length-drop : (n : ℕ) (s : Text) → length (drop n s) ≡ length s - n
length-drop zero s = omega arith
length-drop (suc n) [] = omega arith
length-drop (suc n) (c ∷ s) = omega (arith, length-drop n s)
