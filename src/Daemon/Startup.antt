-- ===== src/Daemon/Startup.antt =====
-- bin/capture.rs: the validation of the configuration, and what `run_capture` settles before it opens
-- the store. The answers of git, the files of a previous run and the private key are parameters.
pub mod Settled
pub mod Examples
use kalshi_alpha.Prelude.{
  ℕ, Bool, true, false, not, ◌&&◌, ◌||◌, Option, none, some, List, [], ◌∷◌, ◌++◌, ltb, leb, ◌==◌,
  if◌then◌else◌, Result, ok, err, ◌>>=◌, ℤ,
}
use kalshi_alpha.Prelude.Text.{Text, codes, text_eq}
use kalshi_alpha.Ingest.Auth.{AuthError, Credentials, from_pem_file}
use kalshi_alpha.Ingest.Connection.{PricingConvention, convention_str, WsError, parse_convention}
use kalshi_alpha.Store.Session.{
  Calendar, Environment, demo, prod, environment_str, SessionError, SessionMetadata, new_session,
  Provenance, clean, dirty, stale, unknown,
}
use kalshi_alpha.Daemon.Config.{Cli, Endpoint, AppConfig}

pub data StartError : Type 0 where
  idle_timeout_too_small : (secs : ℕ) → StartError
  not_acknowledged dirty_tree empty_key_id quarantine_failed : StartError
  unknown_environment no_endpoints : (env : Text) → StartError
  no_convention : WsError → StartError
  no_session : SessionError → StartError
  no_credentials : AuthError → StartError

abbrev pub min_idle_timeout_secs : ℕ
min_idle_timeout_secs = 15

unfoldable pub validate_config : AppConfig → Result StartError AppConfig
validate_config config =
    let idle = config.websocket.read_idle_timeout_secs in
    if ltb idle min_idle_timeout_secs then err (idle_timeout_too_small idle) else ok config

-- The arms on the provenance of a production run.
unfoldable pub provenance_gate : Bool → Provenance → Result StartError Environment
provenance_gate allow_dirty clean = ok prod
provenance_gate allow_dirty (unknown reason) = ok prod
provenance_gate true dirty = ok prod
provenance_gate false dirty = err dirty_tree
provenance_gate true (stale built_from head) = ok prod
provenance_gate false (stale built_from head) = ok prod

unfoldable pub environment_gate : Cli → Provenance → Result StartError Environment
unfolding provenance_gate
environment_gate cli provenance =
    if text_eq cli.env (codes "demo")
    then ok demo
    else if text_eq cli.env (codes "prod")
    then (if cli.i_understand_this_is_production
        then provenance_gate cli.allow_dirty_tree provenance
        else err not_acknowledged)
    else err (unknown_environment cli.env)

-- `HashMap::get`
unfoldable pub endpoint_of : Text → List (Text × Endpoint) → Result StartError Endpoint
endpoint_of env [] = err (no_endpoints env)
endpoint_of env ((k, e) ∷ endpoints) = if text_eq k env then ok e else endpoint_of env endpoints

-- `char::is_whitespace`
abbrev pub is_whitespace : ℕ → Bool
is_whitespace c =
    (leb 9 c && leb c 13)
    || c == 32
    || c == 0x85
    || c == 0xa0
    || c == 0x1680
    || (leb 0x2000 c && leb c 0x200a)
    || c == 0x2028
    || c == 0x2029
    || c == 0x202f
    || c == 0x205f
    || c == 0x3000

-- `trim().is_empty()`
unfoldable pub is_blank : Text → Bool
is_blank [] = true
is_blank (c ∷ s) = is_whitespace c && is_blank s

-- What follows `~/`.
abbrev pub behind_tilde : Text → Option Text
behind_tilde (c ∷ d ∷ s) = if c == b'~' && d == b'/' then some s else none
behind_tilde s = none

-- `PathBuf::push`: a separator stands in front of what is pushed, unless one is there or nothing.
abbrev pub separated : Text → Text
separated [] = []
separated (c ∷ []) = if c == b'/' then c ∷ [] else c ∷ b'/' ∷ []
separated (c ∷ d ∷ s) = c ∷ separated (d ∷ s)

abbrev pub is_absolute : Text → Bool
is_absolute [] = false
is_absolute (c ∷ s) = c == b'/'

-- `PathBuf::join`
abbrev pub join_path : Text → Text → Text
join_path base path = if is_absolute path then path else separated base ++ path

abbrev pub in_home : Text → Option Text → Option Text → Text
in_home path none home = path
in_home path (some rest) none = path
in_home path (some rest) (some home) = join_path home rest

-- `expand_tilde`, with the variable HOME.
unfoldable pub expand_tilde : Option Text → Text → Text
expand_tilde home path = in_home path (behind_tilde path) home

unfoldable pub heartbeat_path_for : Option Text → Text → Environment → Text
unfolding expand_tilde
heartbeat_path_for home configured environment =
    expand_tilde home configured ++ (b'.' ∷ environment_str environment)

abbrev pub or_refused : {E A : Type 0} → (E → StartError) → Result E A → Result StartError A
or_refused f (err e) = err (f e)
or_refused f (ok a) = ok a

abbrev pub require : Bool → StartError → Result StartError Unit
require true e = ok tt
require false e = err e

abbrev pub or_configured : ℕ → Option ℕ → ℕ
or_configured n none = n
or_configured n (some m) = m

abbrev pub or_listed : List Text → List Text → List Text
or_listed configured [] = configured
or_listed configured (s ∷ ss) = s ∷ ss

pub record Prepared : Type 0 where
  pub environment : Environment
  pub endpoint : Endpoint
  pub convention : PricingConvention
  pub shard_size : ℕ
  pub series : List Text
  pub session : SessionMetadata
  pub credentials : Credentials

-- The world around the start: whether the scan for incomplete files succeeds, and the rest.
pub record Surroundings : Type 0 where
  pub provenance : Provenance
  pub calendar : Calendar
  pub built_from : Text
  pub now : ℤ
  pub home : Option Text
  pub scan_succeeds : Bool
  pub read_file : Text → Option Text
  pub decode_key : Text → Option (Text → Option Text)

-- The credentials.
abbrev pub with_session :
    Surroundings
    → Cli
    → AppConfig
    → Environment
    → Endpoint
    → PricingConvention
    → SessionMetadata
    → Result StartError Prepared
with_session s cli config environment endpoint convention session =
    let path = expand_tilde s.home config.auth.private_key_path in
    or_refused no_credentials
      (from_pem_file s.decode_key config.auth.key_id path (s.read_file path))
    >>= λ credentials. ok (record {
      environment = environment;
      endpoint = endpoint;
      convention = convention;
      shard_size = or_configured config.websocket.orderbook_shard_size cli.orderbook_shard_size;
      series = or_listed config.discovery.series_tickers cli.series;
      session = session;
      credentials = credentials;
    })

abbrev pub session_of :
    Surroundings
    → Cli
    → AppConfig
    → Environment
    → Endpoint
    → PricingConvention
    → Result StartError SessionMetadata
session_of s cli config environment endpoint convention = or_refused no_session (
    new_session s.calendar s.built_from (convention_str convention) environment
      (or_configured config.websocket.orderbook_shard_size cli.orderbook_shard_size)
      config.websocket.channels endpoint.ws s.now)

-- The scan of the previous run's files, the session and the check of the key.
abbrev pub with_convention :
    Surroundings
    → Cli
    → AppConfig
    → Environment
    → Endpoint
    → PricingConvention
    → Result StartError Prepared
with_convention s cli config environment endpoint convention =
    require (not config.storage.quarantine_on_startup || s.scan_succeeds) quarantine_failed >>= λ _.
    session_of s cli config environment endpoint convention >>= λ session.
    require (not (is_blank config.auth.key_id)) empty_key_id >>= λ _.
    with_session s cli config environment endpoint convention session

-- `run_capture` up to the REST client, in the order of the source.
unfoldable pub prepare : Surroundings → Cli → AppConfig → Result StartError Prepared
unfolding environment_gate endpoint_of
prepare s cli config = environment_gate cli s.provenance >>= λ environment.
    endpoint_of (environment_str environment) config.endpoints >>= λ endpoint.
    or_refused no_convention (parse_convention config.websocket.pricing_convention)
    >>= λ convention. with_convention s cli config environment endpoint convention
