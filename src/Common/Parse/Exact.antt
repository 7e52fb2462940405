-- ===== src/Common/Parse/Exact.antt =====
-- Soundness of `parse_scaled`: what it accepts it reads exactly.
use kalshi_alpha.Prelude.{
  ℕ, ◌≡◌, ◌≢◌, refl, sym, ◌∙◌, Bool, true, false, not, inl, inr, List, [], ◌∷◌, ◌++◌, arith, ◌==◌,
  Option-cases, drop, All, Result, ok, ◌>>=◌, ◌>>◌, subst, Result-cases, ℤ, signed, fits_i64,
  fits_i64-InI64, append-nil,
}
use kalshi_alpha.Prelude.Text.{Text, any_of, split_on}
use kalshi_alpha.Common.Parse.{
  int_loop, assemble, parse_body, parse_scaled, reject_non_digits, check_integer, check_fraction,
  strip_minus, check_points, ParseFixedError,
}
use kalshi_alpha.Common.Parse.Digits.{IsDigit, int_loop_sound, zeros_value, reject_sound}
use kalshi_alpha.Common.Parse.Scale.{loop_amount, loop_amount-IsExact}
use kalshi_alpha.Common.Parse.Grammar.{Denotes, fraction, behind, split_join, strip_minus_spell}

assemble_sound :
    (input : Text) (scale : ℕ) (negative : Bool) (ip fp : Text) {v : ℤ}
    → assemble input scale negative ip fp ≡ ok v
    → (any_of (λ b. not (b == b'0')) (drop scale fp) ≡ false)
      × (v ≡ signed negative (loop_amount scale ip fp))
      × (fits_i64 v ≡ true)
unfolding assemble
assemble_sound input scale negative ip fp h = elim (Option-cases (int_loop ip 0)) [
  | inl e ↦ absurd (ground arith)
  | inr (w, e) ↦ ground (arith, int_loop_sound ip 0 w e (omega arith))
]

check_integer_sound :
    (input ip : Text) → check_integer input ip ≡ ok tt → (ip ≢ []) × All IsDigit ip
unfolding check_integer
check_integer_sound input [] h = cc
check_integer_sound input (c ∷ ip) h = ((λ e. cc), reject_sound (c ∷ ip) input h)

-- What an accepted text behind the sign is made of.
record Halves (input : Text) (scale : ℕ) (negative : Bool) (body : Text) (v : ℤ) : Type 0 where
  ip : Text
  fp : Text
  joined : body ≡ ip ++ fraction fp
  some_digit : ip ≢ []
  ip_digits : All IsDigit ip
  fp_digits : All IsDigit fp
  assembled : assemble input scale negative ip fp ≡ ok v

-- `parse_body` once the text is cut at its points.
cut_body : Text → ℕ → Bool → Text → List Text → Result ParseFixedError ℤ
cut_body input scale negative int_part others = do
  frac_part ← check_points input others
  check_integer input int_part
  frac ← check_fraction input frac_part
  assemble input scale negative int_part frac

module _ (input : Text) (scale : ℕ) (negative : Bool) {v : ℤ} where
  cut_body_sound :
      (ip : Text) (others : List Text)
      → cut_body input scale negative ip others ≡ ok v
      → Halves input scale negative (ip ++ behind others) v
  unfolding cut_body check_points check_fraction
  cut_body_sound ip [] h = elim (Result-cases (check_integer input ip)) [
    | inl (u, e) ↦
        let (p, q) = check_integer_sound input ip e in
        record {
          ip = ip;
          fp = [];
          joined = refl;
          some_digit = p;
          ip_digits = q;
          fp_digits = tt;
          assembled = ground arith;
        }
    | inr (x, e) ↦ absurd (ground arith)
  ]
  cut_body_sound ip ([] ∷ []) h = elim (Result-cases (check_integer input ip)) [
    | inl (u, e) ↦ absurd (ground arith)
    | inr (x, e) ↦ absurd (ground arith)
  ]
  cut_body_sound ip ((c ∷ f) ∷ []) h = elim (Result-cases (check_integer input ip)) [
    | inl (u, e) ↦ elim (Result-cases (reject_non_digits (c ∷ f) input)) [
      | inl (u', e') ↦
          let (p, q) = check_integer_sound input ip e in
          record {
            ip = ip;
            fp = c ∷ f;
            joined = simp append-nil;
            some_digit = p;
            ip_digits = q;
            fp_digits = reject_sound (c ∷ f) input e';
            assembled = ground arith;
          }
      | inr (x, e') ↦ absurd (ground arith)
    ]
    | inr (x, e) ↦ absurd (ground arith)
  ]
  cut_body_sound ip (f ∷ g ∷ r) h = cc

  parse_body_sound :
      (body : Text)
      → parse_body input scale negative body ≡ ok v
      → Halves input scale negative body v
  unfolding parse_body cut_body
  parse_body_sound body h =
      subst (λ b. Halves input scale negative b v) (sym (split_join body))
        (cut_body_sound (split_on b'.' body).0 (split_on b'.' body).1 h)

-- A sign before the halves makes the whole text.
Halves-Denotes :
    (s : Text) (scale : ℕ) (v : ℤ)
    → Halves s scale (strip_minus s).0 (strip_minus s).1 v
    → Denotes s scale v
Halves-Denotes s scale v p =
    let (zeros, result, fits) = assemble_sound s scale (strip_minus s).0 p.ip p.fp p.assembled in
    record {
      negative = (strip_minus s).0;
      int_digits = p.ip;
      frac_digits = p.fp;
      amount = loop_amount scale p.ip p.fp;
      spelled = strip_minus_spell s ∙ ground (arith, p.joined);
      int_some = p.some_digit;
      int_all = p.ip_digits;
      frac_all = p.fp_digits;
      exact = loop_amount-IsExact scale p.ip p.fp (zeros_value (drop scale p.fp) zeros);
      result = result;
      fits = fits_i64-InI64 v fits;
    }

pub parse_scaled_sound :
    (s : Text) (scale : ℕ) (v : ℤ) → parse_scaled s scale ≡ ok v → Denotes s scale v
unfolding parse_scaled
parse_scaled_sound s scale v h =
    Halves-Denotes s scale v
      (parse_body_sound s scale (strip_minus s).0 (strip_minus s).1 (ground arith))
