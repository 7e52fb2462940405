-- ===== src/Ingest/Auth/Query.antt =====
-- A signature of crates/ingest/src/auth.rs does not depend on the query of a request.
use kalshi_alpha.Prelude.{ℕ, ◌≡◌, ◌≢◌, refl, ap, sym, ◌∙◌, some, [], ◌∷◌, ◌++◌, All, arith}
use kalshi_alpha.Prelude.Text.{Text}
use kalshi_alpha.Common.Parse.{decimal}
use kalshi_alpha.Ingest.Auth.{
  Credentials, headers_of, path_without_query, signing_message, sign, sign_rest, timestamp_ms_now,
}

path_without_query_lem :
    (path query : Text)
    → All (λ c. c ≢ b'?') path
    → path_without_query (path ++ (b'?' ∷ query)) ≡ path
unfolding path_without_query
path_without_query_lem [] query h = refl
path_without_query_lem (c ∷ path) query h =
    ground (arith, h.0, path_without_query_lem path query h.1)

no_query : (path : Text) → All (λ c. c ≢ b'?') path → path_without_query path ≡ path
unfolding path_without_query
no_query [] h = refl
no_query (c ∷ path) h = ground (arith, h.0, no_query path h.1)

-- With the same randomness, signing a path with a query is signing the path: the time in decimal
-- digits, the method and the path without a question mark are what the key signs, whatever query
-- follows.
pub sign_rest_lem :
    (c : Credentials) (millis : ℕ) (method path query : Text)
    → All (λ d. d ≢ b'?') path
    → (sign_rest c (some millis) method (path ++ (b'?' ∷ query))
        ≡ sign_rest c (some millis) method path)
      × (sign_rest c (some millis) method path
          ≡ headers_of c
              (decimal millis millis)
              (c.signing_key (decimal millis millis ++ (method ++ path))))
unfolding sign_rest sign signing_message timestamp_ms_now
sign_rest_lem c millis method path query h =
    let signed = λ (p : Text).
      headers_of c (decimal millis millis)
        (c.signing_key (decimal millis millis ++ (method ++ p))) in
    (
      ap signed (path_without_query_lem path query h) ∙ sym (ap signed (no_query path h)),
      ap signed (no_query path h),
    )
