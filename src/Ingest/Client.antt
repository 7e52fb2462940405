-- ===== src/Ingest/Client.antt =====
-- crates/ingest/src/rest.rs: the client. The network, the signature, the clock and the parsers of
-- `serde_json` and `chrono` are parameters: a network answers a request in a state of its own. Each
-- attempt waits for the rate limiter first, which stands in a module of its own. An instant is its
-- milliseconds since the epoch, and a wait its milliseconds.
pub mod Retry
pub mod Discovery
pub mod Urls
pub mod Examples
use kalshi_alpha.Prelude.{
  ℕ, zero, suc, ◌+◌, ◌-◌, ◌*◌, Bool, true, false, ◌&&◌, ◌||◌, not, Option, none, some, List, [],
  ◌∷◌, ◌++◌, length, ltb, leb, ◌==◌, if◌then◌else◌, Result, ok, err, ℤ, ◌-ℤ◌, magnitude,
}
use kalshi_alpha.Prelude.Text.{Text, codes, byte_len, utf8_len}
use kalshi_alpha.Ingest.Doubling.{doubled}

pub data RestError : Type 0 where
  auth transport decode : (path : Text) → RestError
  status_error : (path : Text) (status : ℕ) (body : Text) → RestError
  exhausted : (path : Text) (attempts : ℕ) → RestError

pub record ClockSkew : Type 0 where
  pub delta_ms : ℤ

-- `ClockSkew::from_date_header`
unfoldable pub from_date_header : (Text → Option ℤ) → Text → ℤ → Option ClockSkew
unfolding ◌-ℤ◌
from_date_header parse_rfc2822 header local = elim (parse_rfc2822 header) [
  | none ↦ none
  | some server ↦ some (record { delta_ms = local -ℤ server })
]

abbrev pub warn_ms : ℕ
warn_ms = 5_000

unfoldable pub is_concerning : ClockSkew → Bool
is_concerning skew = leb warn_ms (magnitude skew.delta_ms)

pub record ResponseMeta : Type 0 where
  pub status : ℕ
  pub clock_skew : Option ClockSkew
  pub received_at : ℤ

pub record RestConfig : Type 0 where
  pub base_url : Text
  pub assumed_read_refill : ℕ
  pub assumed_read_capacity : ℕ
  pub assumed_default_cost : ℕ
  pub backoff_initial : ℕ
  pub backoff_max : ℕ
  pub max_attempts : ℕ
  pub request_timeout : ℕ

abbrev pub default_config : RestConfig
default_config = record {
  base_url = codes "https://external-api.demo.kalshi.co/trade-api/v2";
  assumed_read_refill = 200;
  assumed_read_capacity = 200;
  assumed_default_cost = 10;
  backoff_initial = 250;
  backoff_max = 30_000;
  max_attempts = 6;
  request_timeout = 30_000;
}

-- `str::is_char_boundary`
unfoldable pub is_char_boundary : Text → ℕ → Bool
is_char_boundary s zero = true
is_char_boundary [] (suc i) = false
is_char_boundary (c ∷ s) (suc i) =
    if leb (utf8_len c) (suc i) then is_char_boundary s (suc i - utf8_len c) else false

-- `&s[..end]` at a boundary.
unfoldable pub slice_to : Text → ℕ → Text
slice_to s zero = []
slice_to [] (suc i) = []
slice_to (c ∷ s) (suc i) = c ∷ slice_to s (suc i - utf8_len c)

-- The loop of `truncate`.
unfoldable pub boundary_below : Text → ℕ → ℕ
unfolding is_char_boundary
boundary_below s zero = zero
boundary_below s (suc i) =
    let below = boundary_below s i in if is_char_boundary s (suc i) then suc i else below

unfoldable pub truncate : Text → ℕ → Text
unfolding boundary_below slice_to
truncate s max =
    if leb (byte_len s) max then s else slice_to s (boundary_below s max) ++ codes "..."

-- The text behind the first `://`, if there is one.
unfoldable pub behind_scheme : Text → Option Text
behind_scheme [] = none
behind_scheme (c ∷ []) = none
behind_scheme (c ∷ d ∷ []) = none
behind_scheme (c ∷ d ∷ e ∷ s) =
    let later = behind_scheme (d ∷ e ∷ s) in
    if c == b':' && d == b'/' && e == b'/' then some s else later

-- The text from the first slash on.
unfoldable pub from_slash : Text → Text
from_slash [] = []
from_slash (c ∷ s) = let later = from_slash s in if c == b'/' then c ∷ s else later

abbrev pub cons_unless : ℕ → Text → Text
cons_unless c [] = if c == b'/' then [] else c ∷ []
cons_unless c (d ∷ s) = c ∷ d ∷ s

-- `trim_end_matches('/')`
unfoldable pub trim_end : Text → Text
trim_end [] = []
trim_end (c ∷ s) = cons_unless c (trim_end s)

-- `map_or`
abbrev pub behind_or : Text → Option Text → Text
behind_or base_url none = base_url
behind_or base_url (some rest) = rest

unfoldable pub signing_prefix_from : Text → Text
unfolding behind_scheme from_slash trim_end
signing_prefix_from base_url = trim_end (from_slash (behind_or base_url (behind_scheme base_url)))

unfoldable pub signing_path : RestConfig → Text → Text
unfolding signing_prefix_from
signing_path config path = signing_prefix_from config.base_url ++ path

abbrev pub Query : Type 0
Query = List (Text × Text)

-- What a signed GET comes to: no signature, no response, or a response with its `Date` header and
-- its body, unless that cannot be read.
pub data Reply : Type 0 where
  unsigned no_response : Reply
  response : (status : ℕ) (date : Option Text) (received_at : ℤ) (body : Option Text) → Reply

pub record Network : Type 1 where
  pub State : Type 0
  pub send : State → (signed_path : Text) → (url : Text) → Query → State × Reply
  pub parse_rfc2822 : Text → Option ℤ

abbrev pub is_success : ℕ → Bool
is_success status = leb 200 status && ltb status 300

abbrev pub is_server_error : ℕ → Bool
is_server_error status = leb 500 status && ltb status 600

abbrev pub skew_of : (Text → Option ℤ) → Option Text → ℤ → Option ClockSkew
skew_of parse none received_at = none
skew_of parse (some header) received_at = from_date_header parse header received_at

module _ (net : Network) (config : RestConfig) {T : Type 0} (parse : Text → Option T) (path : Text)
    (query : Query) where
  -- The waits of a call, and what it returns.
  abbrev pub Fetched : Type 0
  Fetched = net.State × (List ℕ × Result RestError (T × ResponseMeta))

  abbrev pub after_wait : ℕ → Fetched → Fetched
  after_wait backoff (n, (waited, r)) = (n, (backoff ∷ waited, r))

  abbrev pub on_parsed :
      net.State → (status : ℕ) → Option Text → (received_at : ℤ) → Option T → Fetched
  on_parsed n status date received_at none = (n, ([], err (decode path)))
  on_parsed n status date received_at (some parsed) =
      let meta : ResponseMeta = record {
        status = status;
        clock_skew = skew_of net.parse_rfc2822 date received_at;
        received_at = received_at;
      } in
      (n, ([], ok (parsed, meta)))

  -- One attempt, from its reply and what the next attempts come to.
  abbrev pub on_reply : (attempt : ℕ) → (backoff : ℕ) → net.State → Reply → Fetched → Fetched
  on_reply attempt backoff n unsigned later = (n, ([], err (auth path)))
  on_reply attempt backoff n no_response later = (n, ([], err (transport path)))
  on_reply attempt backoff n (response status date received_at none) later =
      if status == 429 then after_wait backoff later else (n, ([], err (transport path)))
  on_reply attempt backoff n (response status date received_at (some body)) later =
      if status == 429
      then after_wait backoff later
      else if not (is_success status)
      then (if is_server_error status && ltb attempt config.max_attempts
          then after_wait backoff later
          else (n, ([], err (status_error path status (truncate body 512)))))
      else on_parsed n status date received_at (parse body)

  -- The loop of `get_json`, with the attempts that are left.
  unfoldable pub attempts_left : ℕ → (attempt : ℕ) → (backoff : ℕ) → net.State → Fetched
  unfolding truncate signing_path from_date_header
  attempts_left zero attempt backoff n = (n, ([], err (exhausted path config.max_attempts)))
  attempts_left (suc left) attempt backoff n =
      let (n', reply) = net.send n (signing_path config path) (config.base_url ++ path) query in
      on_reply attempt backoff n' reply
        (attempts_left left (suc attempt) (doubled config.backoff_max backoff) n')

  unfoldable pub get_json : net.State → Fetched
  unfolding attempts_left
  get_json n = attempts_left config.max_attempts 1 config.backoff_initial n
