-- ===== src/Common/Ticker/Safety.antt =====
-- A ticker is a safe path component in one spelling, however its wire text was written.
use kalshi_alpha.Prelude.{
  ℕ, ◌+◌, ◌≤◌, ◌≡◌, ◌≢◌, ◌↔◌, refl, sym, ap, ap₂, ◌∙◌, true, false, not, none, [], ◌∷◌, arith, All,
  Result-cases, inl, inr, ok,
}
use kalshi_alpha.Prelude.Text.{Text, byte_len, is_ascii_lowercase, any_of, find_first}
use kalshi_alpha.Common.Ticker.{
  Ticker, max_ticker_len, is_ticker_char, to_upper, upper, starts_with_dot, validate, parse,
  parse_strict, as_partition_component,
}

-- A character that a normalised ticker may hold: none is a path separator, a space or a small letter.
abbrev pub IsSafeChar : ℕ → Type 0
IsSafeChar c = (is_ticker_char c ≡ true) × (is_ascii_lowercase c ≡ false)

-- A file name that stays in its directory and is not hidden: not empty, not too long, made of safe
-- characters, and without a leading point, so neither `.` nor `..`.
pub record IsSafeComponent (s : Text) : Type 0 where
  pub non_empty : s ≢ []
  pub short : byte_len s ≤ max_ticker_len
  pub safe : All IsSafeChar s
  pub no_dot : starts_with_dot s ≡ false

-- The texts that `validate` lets pass.
record IsTickerText (s : Text) : Type 0 where
  non_empty : s ≢ []
  short : byte_len s ≤ max_ticker_len
  chars : All (λ c. is_ticker_char c ≡ true) s
  no_dot : starts_with_dot s ≡ false

find_none :
    (s : Text)
    → find_first (λ d. not (is_ticker_char d)) s ≡ none
    → All (λ c. is_ticker_char c ≡ true) s
find_none [] h = tt
find_none (c ∷ s) h = ground (arith, find_none s)

none_found :
    (s : Text)
    → All (λ c. is_ticker_char c ≡ true) s
    → find_first (λ d. not (is_ticker_char d)) s ≡ none
none_found [] h = refl
none_found (c ∷ s) h = ground (arith, none_found s h.1, h.0)

validate_sound : (s : Text) → validate s ≡ ok tt → IsTickerText s
unfolding validate
validate_sound [] h = cc
validate_sound (c ∷ s) h = record {
  non_empty = λ e. cc;
  short = ground arith;
  chars = find_none (c ∷ s) (ground arith);
  no_dot = ground arith;
}

validate_complete : (s : Text) → IsTickerText s → validate s ≡ ok tt
unfolding validate
validate_complete [] h = absurd (h.non_empty refl)
validate_complete (c ∷ s) h = rw (none_found (c ∷ s) h.chars) (ground (arith, h.short, h.no_dot))

-- Upper case changes neither what is a ticker character nor how many bytes it takes.
upper_char :
    (c : ℕ)
    → (is_ticker_char c ≡ true → IsSafeChar (to_upper c))
      × (is_ticker_char (to_upper c) ≡ true → is_ticker_char c ≡ true)
upper_char c = (λ h. ground arith, λ h. ground arith)

byte_len-upper : (s : Text) → byte_len (upper s) ≡ byte_len s
byte_len-upper [] = refl
byte_len-upper (c ∷ s) = ap₂ ◌+◌ (ground arith) (byte_len-upper s)

starts_with_dot-upper : (s : Text) → starts_with_dot (upper s) ≡ starts_with_dot s
starts_with_dot-upper [] = refl
starts_with_dot-upper (c ∷ s) = ground arith

upper-IsSafeChar : (s : Text) → All (λ c. is_ticker_char c ≡ true) s → All IsSafeChar (upper s)
upper-IsSafeChar [] h = tt
upper-IsSafeChar (c ∷ s) (hc, hs) = ((upper_char c).0 hc, upper-IsSafeChar s hs)

chars_of_upper :
    (s : Text) → All (λ c. is_ticker_char c ≡ true) (upper s) → All (λ c. is_ticker_char c ≡ true) s
chars_of_upper [] h = tt
chars_of_upper (c ∷ s) (hc, hs) = ((upper_char c).1 hc, chars_of_upper s hs)

safe_chars : (s : Text) → All IsSafeChar s → All (λ c. is_ticker_char c ≡ true) s
safe_chars [] h = tt
safe_chars (c ∷ s) (hc, hs) = (hc.0, safe_chars s hs)

upper-ne-nil : (s : Text) → s ≢ [] → upper s ≢ []
upper-ne-nil [] h e = h refl
upper-ne-nil (c ∷ s) h e = cc

ne-nil_of_upper : (s : Text) → upper s ≢ [] → s ≢ []
ne-nil_of_upper [] h e = h refl
ne-nil_of_upper (c ∷ s) h e = cc

upper-IsTickerText : (s : Text) → IsTickerText s → IsTickerText (upper s)
upper-IsTickerText s h = record {
  non_empty = upper-ne-nil s h.non_empty;
  short = rw (byte_len-upper s) h.short;
  chars = safe_chars (upper s) (upper-IsSafeChar s h.chars);
  no_dot = starts_with_dot-upper s ∙ h.no_dot;
}

IsTickerText-of_upper : (s : Text) → IsTickerText (upper s) → IsTickerText s
IsTickerText-of_upper s h = record {
  non_empty = ne-nil_of_upper s h.non_empty;
  short = rw (byte_len-upper s) at h.short;
  chars = chars_of_upper s h.chars;
  no_dot = sym (starts_with_dot-upper s) ∙ h.no_dot;
}

upper-upper : (s : Text) → upper (upper s) ≡ upper s
upper-upper [] = refl
upper-upper (c ∷ s) = ground (arith, upper-upper s)

parse_sound : (s : Text) (t : Ticker) → parse s ≡ ok t → IsTickerText s × (t.text ≡ upper s)
unfolding parse
parse_sound s t h = elim (Result-cases (validate s)) [
  | inl (u, e) ↦ (validate_sound s e, ground arith)
  | inr (x, e) ↦ absurd (ground arith)
]

parse_complete : (s : Text) → IsTickerText s → parse s ≡ ok (record { text = upper s })
unfolding parse
parse_complete s h = rw (validate_complete s h)

-- A parsed ticker is a safe path component: not empty, at most 128 bytes, of safe characters without
-- lower-case letters, and without a dot at the front.
pub parse-IsSafeComponent :
    (s : Text) (t : Ticker) → parse s ≡ ok t → IsSafeComponent (as_partition_component t)
unfolding as_partition_component
parse-IsSafeComponent s t h =
    let (text, e) = parse_sound s t h in
    let up = upper-IsTickerText s text in
    rw e (record {
      non_empty = up.non_empty;
      short = up.short;
      safe = upper-IsSafeChar s text.chars;
      no_dot = up.no_dot;
    })

-- Parsing a ticker's own text gives the ticker back: normalising is done once.
pub parse_idempotent : (s : Text) (t : Ticker) → parse s ≡ ok t → parse t.text ≡ ok t
parse_idempotent s t h =
    let (text, e) = parse_sound s t h in
    rw e (
      parse_complete (upper s) (upper-IsTickerText s text)
      ∙ ap ok (λ i. record { text = upper-upper s i }))

-- Two texts that differ in case alone name the same ticker: if one is accepted, both are, with one
-- result.
pub parse_case_insensitive :
    (s s' : Text) (t : Ticker) → upper s ≡ upper s' → parse s ≡ ok t → parse s' ≡ ok t
parse_case_insensitive s s' t e h =
    let (text, same) = parse_sound s t h in
    let text' = IsTickerText-of_upper s' (rw (← e) (upper-IsTickerText s text)) in
    parse_complete s' text' ∙ ap ok (λ i. record { text = (sym e ∙ sym same) i })

upper_canonical : (s : Text) → any_of is_ascii_lowercase s ≡ false → upper s ≡ s
upper_canonical [] h = refl
upper_canonical (c ∷ s) h = ground (arith, upper_canonical s)

canonical_upper : (s : Text) → any_of is_ascii_lowercase (upper s) ≡ false
canonical_upper [] = refl
canonical_upper (c ∷ s) = ground (arith, canonical_upper s)

-- The strict parser accepts exactly the texts that the lenient one accepts and leaves as they are.
pub parse_strict_iff :
    (s : Text) (t : Ticker) → (parse_strict s ≡ ok t) ↔ ((parse s ≡ ok t) × (t.text ≡ s))
unfolding parse_strict parse
parse_strict_iff s t = (to, from)
  where
    to : parse_strict s ≡ ok t → (parse s ≡ ok t) × (t.text ≡ s)
    to h = elim (Result-cases (validate s)) [
      | inl (u, e) ↦ ground (arith, upper_canonical s)
      | inr (x, e) ↦ absurd (ground arith)
    ]

    from : (parse s ≡ ok t) × (t.text ≡ s) → parse_strict s ≡ ok t
    from (h, k) = elim (Result-cases (validate s)) [
      | inl (u, e) ↦ ground (arith, canonical_upper s)
      | inr (x, e) ↦ absurd (ground arith)
    ]
