-- ===== src/Store/Session.antt =====
-- crates/store/src/session.rs: the record that describes a run. An instant is its nanoseconds since
-- the epoch; the calendar and the formats of `chrono` are parameters, as are the commit of the build
-- and the answers of git.
use kalshi_alpha.Prelude.{
  ℕ, zero, suc, Bool, true, false, Option, none, some, List, [], ◌∷◌, ◌++◌, if◌then◌else◌, Result,
  ok, err, ℤ,
}
use kalshi_alpha.Prelude.Text.{Text, codes, text_eq}
use kalshi_alpha.Common.Parse.{decimal}
use kalshi_alpha.Common.Px.{px_scale}
use kalshi_alpha.Common.Qty.{qty_scale}

-- What the code uses of `chrono`, in UTC.
pub record Calendar : Type 0 where
  pub year : ℤ → ℕ
  pub month : ℤ → ℕ
  pub day : ℤ → ℕ
  -- `%Y%m%dT%H%M%SZ`
  pub stamp_seconds : ℤ → Text
  -- `%Y%m%dT%H%M%S%.3fZ`
  pub stamp_millis : ℤ → Text
  pub rfc3339 : ℤ → Text

pub data Environment : Type 0 where
  demo prod : Environment

abbrev pub environment_str : Environment → Text
environment_str demo = codes "demo"
environment_str prod = codes "prod"

pub data SessionError : Type 0 where
  missing_field : (field : Text) → SessionError

pub record SessionMetadata : Type 0 where
  pub session_id : Text
  pub started_at : ℤ
  pub ended_at : Option ℤ
  pub pricing_convention : Text
  pub parser_version : ℕ
  pub px_scale : ℕ
  pub qty_scale : ℕ
  pub environment : Environment
  pub git_sha : Text
  pub docs_spec_date : Text
  pub orderbook_shard_size : ℕ
  pub channels : List Text
  pub ws_url : Text

abbrev is_empty_text : Text → Bool
is_empty_text [] = true
is_empty_text (c ∷ s) = false

abbrev is_empty_list : List Text → Bool
is_empty_list [] = true
is_empty_list (c ∷ s) = false

-- `chars().take(n)`
abbrev take : ℕ → Text → Text
take n [] = []
take zero (c ∷ s) = []
take (suc n) (c ∷ s) = c ∷ take n s

abbrev pub version_of_parser : ℕ
version_of_parser = 1

abbrev pub spec_date : Text
spec_date = codes "2026-08-28"

-- `SessionMetadata::new`, in a build of the given commit.
unfoldable pub new_session :
    Calendar
    → (built_from : Text) → (pricing_convention : Text) → Environment
    → (orderbook_shard_size : ℕ) → (channels : List Text) → (ws_url : Text) → (started_at : ℤ)
    → Result SessionError SessionMetadata
new_session calendar built_from pricing_convention environment orderbook_shard_size channels ws_url
      started_at =
    if is_empty_text pricing_convention
    then err (missing_field (codes "pricing_convention"))
    else if is_empty_text ws_url
    then err (missing_field (codes "ws_url"))
    else if is_empty_list channels
    then err (missing_field (codes "channels"))
    else ok (record {
      session_id = calendar.stamp_seconds started_at ++ (b'-' ∷ take 8 built_from);
      started_at = started_at;
      ended_at = none;
      pricing_convention = pricing_convention;
      parser_version = version_of_parser;
      px_scale = px_scale;
      qty_scale = qty_scale;
      environment = environment;
      git_sha = built_from;
      docs_spec_date = spec_date;
      orderbook_shard_size = orderbook_shard_size;
      channels = channels;
      ws_url = ws_url;
    })

-- `SessionMetadata::close`
abbrev pub close_session : SessionMetadata → ℤ → SessionMetadata
close_session s ended_at = record s { ended_at = some ended_at }

unfoldable pub as_key_value_pairs : Calendar → SessionMetadata → List (Text × Text)
unfolding decimal
as_key_value_pairs calendar s =
    (codes "kalshi.session_id", s.session_id)
    ∷ (codes "kalshi.pricing_convention", s.pricing_convention)
    ∷ (codes "kalshi.parser_version", decimal s.parser_version s.parser_version)
    ∷ (codes "kalshi.px_scale", decimal s.px_scale s.px_scale)
    ∷ (codes "kalshi.qty_scale", decimal s.qty_scale s.qty_scale)
    ∷ (codes "kalshi.environment", environment_str s.environment)
    ∷ (codes "kalshi.git_sha", s.git_sha)
    ∷ (codes "kalshi.docs_spec_date", s.docs_spec_date)
    ∷ (codes "kalshi.orderbook_shard_size", decimal s.orderbook_shard_size s.orderbook_shard_size)
    ∷ (codes "kalshi.started_at", calendar.rfc3339 s.started_at)
    ∷ []

unfoldable pub sidecar_filename : SessionMetadata → Text
sidecar_filename s = codes "_session-" ++ (s.session_id ++ codes ".json")

-- What the working tree looks like at launch.
pub data Provenance : Type 0 where
  clean dirty : Provenance
  stale : (built_from head : Text) → Provenance
  unknown : (reason : Text) → Provenance

unfoldable pub is_reproducible : Provenance → Bool
is_reproducible clean = true
is_reproducible dirty = false
is_reproducible (stale built_from head) = true
is_reproducible (unknown reason) = false

-- `provenance`, from what `git rev-parse HEAD` and `git status --porcelain` answer.
unfoldable pub provenance : (built_from : Text) → Result Text Text → Result Text Text → Provenance
provenance built_from (err reason) status = unknown reason
provenance built_from (ok head) (err reason) = unknown reason
provenance built_from (ok head) (ok (c ∷ s)) = dirty
provenance built_from (ok head) (ok []) =
    if text_eq built_from head then clean else stale built_from head
