-- ===== src/Daemon/Config.antt =====
-- bin/capture.rs: the arguments of the command line and the configuration, which `clap` and `config`
-- fill. A jitter is an `f64` in the source.
use kalshi_alpha.Prelude.{ℕ, Bool, Option, List, ℤ}
use kalshi_alpha.Prelude.Text.{Text}
use kalshi_alpha.Ingest.Backoff.{Jitter}

pub record Cli : Type 0 where
  pub env : Text
  pub i_understand_this_is_production : Bool
  pub allow_dirty_tree : Bool
  pub series : List Text
  pub orderbook_shard_size : Option ℕ

pub record Endpoint : Type 0 where
  pub rest : Text
  pub ws : Text

pub record AuthConfig : Type 0 where
  pub key_id : Text
  pub private_key_path : Text

pub record RateLimitConfig : Type 0 where
  pub read_tokens_per_sec : ℕ
  pub default_request_cost : ℕ

pub record DiscoveryConfig : Type 0 where
  pub series_tickers : List Text
  pub statuses : List Text
  pub reconcile_interval_secs : ℕ

pub record WebsocketConfig : Type 0 where
  pub channels : List Text
  pub pricing_convention : Text
  pub orderbook_shard_size : ℕ
  pub subscribe_pace_ms : ℕ
  pub read_idle_timeout_secs : ℕ
  pub reconnect_initial_ms : ℕ
  pub reconnect_max_ms : ℕ
  pub reconnect_jitter : Jitter

pub record StorageConfig : Type 0 where
  pub root : Text
  pub max_file_age_secs : ℤ
  pub max_file_bytes : ℕ
  pub max_batch_rows : ℕ
  pub flush_interval_secs : ℕ
  pub queue_capacity : ℕ
  pub quarantine_on_startup : Bool

pub record ObservabilityConfig : Type 0 where
  pub metrics_interval_secs : ℕ
  pub heartbeat_path : Text
  pub heartbeat_interval_secs : ℕ
  pub log_level : Text

pub record AppConfig : Type 0 where
  pub endpoints : List (Text × Endpoint)
  pub auth : AuthConfig
  pub rate_limit : RateLimitConfig
  pub discovery : DiscoveryConfig
  pub websocket : WebsocketConfig
  pub storage : StorageConfig
  pub observability : ObservabilityConfig
