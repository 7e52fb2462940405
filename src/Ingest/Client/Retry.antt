-- ===== src/Ingest/Client/Retry.antt =====
-- The retry loop of `get_json` in crates/ingest/src/rest.rs: how long it waits, and how it ends.
use kalshi_alpha.Prelude.{
  ℕ, zero, suc, ◌<◌, ◌≤◌, ◌∙◌, ◌≡◌, ◌≢◌, refl, ap, Bool, true, false, ◌&&◌, not, Option, none, some,
  List, ◌∷◌, ◌++◌, ℤ, length, arith, ltb, ◌==◌, if◌then◌else◌, Result, ok, err,
}
use kalshi_alpha.Prelude.Text.{Text}
use kalshi_alpha.Ingest.Doubling.{doubled, waits, capped_waits, waits_lem}
use kalshi_alpha.Ingest.Client.{
  RestError, auth, transport, decode, status_error, exhausted, ResponseMeta, RestConfig, Network,
  Reply, unsigned, no_response, response, is_success, is_server_error, after_wait, on_parsed,
  signing_path, on_reply, attempts_left, get_json,
}

-- How a call may end that had so many attempts: it gives up after a wait for each of them, and else
-- its last attempt is not waited for; a status that it returns is neither a success nor a 429.
abbrev pub EndsWell : {A : Type 0} → ℕ → ℕ → Result RestError A → Type 0
EndsWell left n (ok a) = n < left
EndsWell left n (err (auth p)) = n < left
EndsWell left n (err (transport p)) = n < left
EndsWell left n (err (decode p)) = n < left
EndsWell left n (err (status_error p s b)) = (n < left) × ((is_success s ≡ false) × (s ≢ 429))
EndsWell left n (err (exhausted p a)) = n ≡ left

EndsWell-suc :
    {A : Type 0} (left n : ℕ) (r : Result RestError A)
    → EndsWell left n r
    → EndsWell (suc left) (suc n) r
EndsWell-suc left n (ok a) h = omega (arith, h)
EndsWell-suc left n (err (auth p)) h = omega (arith, h)
EndsWell-suc left n (err (transport p)) h = omega (arith, h)
EndsWell-suc left n (err (decode p)) h = omega (arith, h)
EndsWell-suc left n (err (status_error p s b)) h = (omega (arith, h.0), h.1)
EndsWell-suc left n (err (exhausted p a)) h = ap suc h

module _ (net : Network) (config : RestConfig) {T : Type 0} (parse : Text → Option T) (path : Text)
    (query : List (Text × Text)) where
  abbrev WaitsWell : ℕ → ℕ → net.State × (List ℕ × Result RestError (T × ResponseMeta)) → Type 0
  WaitsWell left backoff r =
      (r.1.0 ≡ waits config.backoff_max backoff (length r.1.0)) × EndsWell left (length r.1.0) r.1.1

  WaitsWell-if :
      (left backoff : ℕ) (b : Bool)
      (x y : net.State × (List ℕ × Result RestError (T × ResponseMeta)))
      → (b ≡ true → WaitsWell left backoff x)
      → (b ≡ false → WaitsWell left backoff y)
      → WaitsWell left backoff (if b then x else y)
  WaitsWell-if left backoff true x y h h' = h refl
  WaitsWell-if left backoff false x y h h' = h' refl

  after_wait-WaitsWell :
      (left backoff : ℕ) (later : net.State × (List ℕ × Result RestError (T × ResponseMeta)))
      → WaitsWell left (doubled config.backoff_max backoff) later
      → WaitsWell (suc left) backoff (after_wait net config parse path query backoff later)
  after_wait-WaitsWell left backoff (n, (waited, r)) h =
      (ap (λ l. backoff ∷ l) (h.0), EndsWell-suc left (length waited) r h.1)

  on_parsed-WaitsWell :
      (left backoff : ℕ) (n : net.State) (status : ℕ) (date : Option Text) (at : ℤ) (o : Option T)
      → WaitsWell (suc left) backoff (on_parsed net config parse path query n status date at o)
  on_parsed-WaitsWell left backoff n status date at none = (refl, omega (arith))
  on_parsed-WaitsWell left backoff n status date at (some t) = (refl, omega (arith))

  on_reply-WaitsWell :
      (left attempt backoff : ℕ) (n : net.State) (reply : Reply)
      (later : net.State × (List ℕ × Result RestError (T × ResponseMeta)))
      → WaitsWell left (doubled config.backoff_max backoff) later
      → WaitsWell
          (suc left)
          backoff
          (on_reply net config parse path query attempt backoff n reply later)
  on_reply-WaitsWell left attempt backoff n unsigned later h = (refl, ground (arith))
  on_reply-WaitsWell left attempt backoff n no_response later h = (refl, ground (arith))
  on_reply-WaitsWell left attempt backoff n (response status date at none) later h =
      WaitsWell-if (suc left) backoff (status == 429) _ _
        (λ _. after_wait-WaitsWell left backoff later h) (λ _. (refl, omega (arith)))
  on_reply-WaitsWell left attempt backoff n (response status date at (some body)) later h =
      WaitsWell-if (suc left) backoff (status == 429) _ _
        (λ _. after_wait-WaitsWell left backoff later h)
        (λ e.
          WaitsWell-if (suc left) backoff (not (is_success status)) _ _
            (λ e'.
              WaitsWell-if (suc left) backoff
                (is_server_error status && ltb attempt config.max_attempts) _ _
                (λ _. after_wait-WaitsWell left backoff later h)
                (λ _. (refl, (omega (arith), (ground (arith), ground (arith))))))
            (λ _. on_parsed-WaitsWell left backoff n status date at (parse body)))

  attempts_left-WaitsWell :
      (left attempt backoff : ℕ) (n : net.State)
      → WaitsWell left backoff (attempts_left net config parse path query left attempt backoff n)
  unfolding attempts_left
  attempts_left-WaitsWell zero attempt backoff n = (refl, refl)
  attempts_left-WaitsWell (suc left) attempt backoff n =
      let sent = net.send n (signing_path config path) (config.base_url ++ path) query in
      on_reply-WaitsWell left attempt backoff sent.0 sent.1 _
        (attempts_left-WaitsWell left (suc attempt) (doubled config.backoff_max backoff) sent.0)

  -- The waits are the first one doubled again and again, each up to the limit; then the end.
  abbrev pub HasWaited : net.State × (List ℕ × Result RestError (T × ResponseMeta)) → Type 0
  HasWaited r =
      (r.1.0 ≡ capped_waits config.backoff_max config.backoff_initial 0 (length r.1.0))
      × EndsWell config.max_attempts (length r.1.0) r.1.1

  -- When the first wait is within the limit, the wait of a call of `get_json` after n others is the
  -- first one times 2 to the n, up to the limit of the configuration, and the call ends: it gives up
  -- after as many waits as it has attempts, and else it waits less often than that; a status that it
  -- returns as an error is neither a success nor a 429.
  pub get_json_lem :
      (n : net.State)
      → config.backoff_initial ≤ config.backoff_max
      → HasWaited (get_json net config parse path query n)
  unfolding get_json
  get_json_lem n h =
      let r =
        attempts_left net config parse path query config.max_attempts 1 config.backoff_initial n in
      let (waited, ended) =
        attempts_left-WaitsWell config.max_attempts 1 config.backoff_initial n in
      (waited ∙ waits_lem config.backoff_max config.backoff_initial (length r.1.0) h, ended)
