-- ===== src/Daemon/Startup/Examples.antt =====
-- The settings of a run in production, with a dirty tree that was allowed.
use kalshi_alpha.Prelude.{◌≡◌, refl, true, none, some, [], ◌∷◌, pos, ok}
use kalshi_alpha.Prelude.Text.{codes, text_eq}
use kalshi_alpha.Common.Px.{px_scale}
use kalshi_alpha.Common.Qty.{qty_scale}
use kalshi_alpha.Ingest.Auth.{from_pem_file}
use kalshi_alpha.Ingest.Connection.{parse_convention, yes_leg_pricing}
use kalshi_alpha.Store.Session.{Calendar, new_session, prod, dirty, SessionMetadata}
use kalshi_alpha.Daemon.Config.{Cli, Endpoint, AppConfig}
use kalshi_alpha.Daemon.Startup.{Prepared, Surroundings, prepare, is_blank, expand_tilde}
use kalshi_alpha.Daemon.Startup.Settled.{Sound, prepare_lem}

abbrev cli : Cli
cli = record {
  env = codes "prod";
  i_understand_this_is_production = true;
  allow_dirty_tree = true;
  series = [];
  orderbook_shard_size = some 2;
}

abbrev endpoint : Endpoint
endpoint = record { rest = codes "https://x"; ws = codes "wss://x" }

abbrev config : AppConfig
config = record {
  endpoints = (codes "prod", endpoint) ∷ [];
  auth = record { key_id = codes "key"; private_key_path = codes "~/k" };
  rate_limit = record { read_tokens_per_sec = 20; default_request_cost = 1 };
  discovery = record {
    series_tickers = codes "A" ∷ [];
    statuses = codes "open" ∷ [];
    reconcile_interval_secs = 60;
  };
  websocket = record {
    channels = codes "trade" ∷ [];
    pricing_convention = codes "yes_leg";
    orderbook_shard_size = 100;
    subscribe_pace_ms = 0;
    read_idle_timeout_secs = 60;
    reconnect_initial_ms = 1;
    reconnect_max_ms = 2;
    reconnect_jitter = record { is_positive = true; spread = λ n. 5 };
  };
  storage = record {
    root = codes "data";
    max_file_age_secs = pos 60;
    max_file_bytes = 100;
    max_batch_rows = 10;
    flush_interval_secs = 1;
    queue_capacity = 10;
    quarantine_on_startup = true;
  };
  observability = record {
    metrics_interval_secs = 10;
    heartbeat_path = codes "beat";
    heartbeat_interval_secs = 10;
    log_level = codes "info";
  };
}

abbrev calendar : Calendar
calendar = record {
  year = λ t. 1970;
  month = λ t. 1;
  day = λ t. 1;
  stamp_seconds = λ t. codes "S";
  stamp_millis = λ t. codes "M";
  rfc3339 = λ t. codes "R";
}

abbrev surroundings : Surroundings
surroundings = record {
  provenance = dirty;
  calendar = calendar;
  built_from = codes "abc";
  now = pos 0;
  home = some (codes "/h");
  scan_succeeds = true;
  read_file = λ path. some path;
  decode_key = λ pem. some (λ message. some pem);
}

abbrev session : SessionMetadata
session = record {
  session_id = codes "S-abc";
  started_at = pos 0;
  ended_at = none;
  pricing_convention = codes "yes_leg";
  parser_version = 1;
  px_scale = px_scale;
  qty_scale = qty_scale;
  environment = prod;
  git_sha = codes "abc";
  docs_spec_date = codes "2026-08-28";
  orderbook_shard_size = 2;
  channels = codes "trade" ∷ [];
  ws_url = codes "wss://x";
}

abbrev prepared : Prepared
prepared = record {
  environment = prod;
  endpoint = endpoint;
  convention = yes_leg_pricing;
  shard_size = 2;
  series = codes "A" ∷ [];
  session = session;
  credentials = record { key_id = codes "key"; signing_key = λ message. some (codes "/h/k") };
}

prepared_lem : prepare surroundings cli config ≡ ok prepared
unfolding prepare text_eq parse_convention new_session is_blank from_pem_file expand_tilde
prepared_lem = refl

prepare_lem_example : Sound surroundings cli config prepared
prepare_lem_example = prepare_lem surroundings cli config prepared prepared_lem
