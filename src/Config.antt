-- ===== src/Config.antt =====
-- src/config.rs: the global configuration, its builder, the overrides by the environment and the
-- validation. What an environment variable holds is its bytes; a level is a string.
pub mod Validity
pub mod Features
pub mod Asked
mod Tests
use text.Mathlib.Text.{◌==◌ as str_eq}
use kode_bridge.Base.{
  ℕ, ◌/◌, ◌%◌, ◌^◌, ◌*◌, String, Bool, true, false, ◌||◌, not, Option, none, some, List, [], ◌∷◌,
  ltb, ◌==◌, if◌then◌else◌, u64,
}
use kode_bridge.Errors.{configuration, Result, ok, err}
use kode_bridge.Bytes.{Bytes, bytes, eq_ignore_ascii_case, parse_usize}

-- `PoolConfig` of src/pool.rs, in milliseconds; the rate limit is left out, which nothing reads.
pub record PoolSettings : Type 0 where
  pub max_size : ℕ
  pub min_idle : ℕ
  pub max_idle_time_ms : ℕ
  pub connection_timeout_ms : ℕ
  pub retry_delay_ms : ℕ
  pub max_retries : ℕ
  pub max_concurrent_requests : ℕ

pub record ClientGlobalConfig : Type 0 where
  pub default_timeout_ms : ℕ
  pub enable_pooling : Bool
  pub pool : PoolSettings
  pub max_retries : ℕ
  pub retry_delay_ms : ℕ
  pub connection_timeout_ms : ℕ

pub record StreamingGlobalConfig : Type 0 where
  pub default_timeout_ms : ℕ
  pub buffer_size : ℕ
  pub max_retries : ℕ
  pub retry_delay_ms : ℕ

pub record LoggingConfig : Type 0 where
  pub enabled : Bool
  pub level : String
  pub structured : Bool
  pub log_requests : Bool
  pub log_connections : Bool

pub record FeatureFlags : Type 0 where
  pub http2_support : Bool
  pub compression : Bool
  pub caching : Bool
  pub metrics : Bool
  pub keep_alive : Bool
  pub auto_reconnect : Bool

pub record GlobalConfig : Type 0 where
  pub client : ClientGlobalConfig
  pub streaming : StreamingGlobalConfig
  pub logging : LoggingConfig
  pub features : FeatureFlags

unfoldable pub default_pool : PoolSettings
default_pool = record {
  max_size = 64;
  min_idle = 8;
  max_idle_time_ms = 120_000;
  connection_timeout_ms = 3_000;
  retry_delay_ms = 10;
  max_retries = 2;
  max_concurrent_requests = 32;
}

unfoldable pub default_client : ClientGlobalConfig
default_client = record {
  default_timeout_ms = 10_000;
  enable_pooling = true;
  pool = default_pool;
  max_retries = 5;
  retry_delay_ms = 50;
  connection_timeout_ms = 5_000;
}

unfoldable pub default_streaming : StreamingGlobalConfig
default_streaming = record {
  default_timeout_ms = 60_000;
  buffer_size = 8192;
  max_retries = 3;
  retry_delay_ms = 100;
}

unfoldable pub default_logging : LoggingConfig
default_logging = record {
  enabled = false;
  level = "info";
  structured = false;
  log_requests = false;
  log_connections = false;
}

unfoldable pub default_features : FeatureFlags
default_features = record {
  http2_support = false;
  compression = false;
  caching = false;
  metrics = false;
  keep_alive = true;
  auto_reconnect = true;
}

unfoldable pub default_global : GlobalConfig
default_global = record {
  client = default_client;
  streaming = default_streaming;
  logging = default_logging;
  features = default_features;
}

unfoldable pub contains : String → List String → Bool
contains level [] = false
contains level (x ∷ xs) = let rest = contains level xs in str_eq level x || rest

abbrev pub levels : List String
levels = "trace" ∷ "debug" ∷ "info" ∷ "warn" ∷ "error" ∷ []

unfoldable pub validate : GlobalConfig → Result (Unit {0})
validate config =
    if config.client.default_timeout_ms == 0
    then err (configuration "Client timeout cannot be zero")
    else if ltb 10 config.client.max_retries
    then err (configuration "Max retries should be <= 10")
    else if config.client.pool.max_size == 0
    then err (configuration "Pool max size cannot be zero")
    else if ltb config.client.pool.max_size config.client.pool.min_idle
    then err (configuration "Pool min_idle cannot be greater than max_size")
    else if not (contains config.logging.level levels)
    then err (configuration "Invalid log level")
    else ok tt

-- The environment variables that are set.
pub record Environment : Type 0 where
  pub timeout_ms : Option Bytes
  pub pooling : Option Bytes
  pub retries : Option Bytes
  pub log_level : Option String
  pub pool_size : Option Bytes

-- A value that is not a number is ignored.
abbrev pub number_or : Option Bytes → ℕ → ℕ
number_or none old = old
number_or (some value) old = elim (parse_usize value) [ none ↦ old | some n ↦ n ]

abbrev pub flag_or : Option Bytes → Bool → Bool
flag_or none old = old
flag_or (some value) old = eq_ignore_ascii_case value (bytes "true")

abbrev pub level_or : Option String → LoggingConfig → LoggingConfig
level_or none old = old
level_or (some level) old = record old { level = level; enabled = true }

unfoldable pub apply_env_overrides : Environment → GlobalConfig → GlobalConfig
apply_env_overrides env config =
    let client = config.client in
    record config {
      client = record client {
        default_timeout_ms = number_or env.timeout_ms client.default_timeout_ms;
        enable_pooling = flag_or env.pooling client.enable_pooling;
        max_retries = number_or env.retries client.max_retries;
        pool = record client.pool { max_size = number_or env.pool_size client.pool.max_size };
      };
      logging = level_or env.log_level config.logging;
    }

unfoldable pub is_feature_enabled : GlobalConfig → String → Bool
is_feature_enabled config feature =
    let f = config.features in
    if str_eq feature "http2"
    then f.http2_support
    else if str_eq feature "compression"
    then f.compression
    else if str_eq feature "caching"
    then f.caching
    else if str_eq feature "metrics"
    then f.metrics
    else if str_eq feature "keep_alive"
    then f.keep_alive
    else if str_eq feature "auto_reconnect"
    then f.auto_reconnect
    else false

unfoldable pub enable_in : String → FeatureFlags → FeatureFlags
enable_in feature f =
    if str_eq feature "compression"
    then record f { compression = true }
    else if str_eq feature "caching"
    then record f { caching = true }
    else if str_eq feature "metrics"
    then record f { metrics = true }
    else if str_eq feature "keep_alive"
    then record f { keep_alive = true }
    else if str_eq feature "auto_reconnect"
    then record f { auto_reconnect = true }
    else f

-- The operations of `ConfigBuilder`, whose state is its configuration.
pub data BuilderCall : Type 0 where
  client_timeout : ℕ → BuilderCall
  enable_pooling : Bool → BuilderCall
  pool_config : PoolSettings → BuilderCall
  max_retries : ℕ → BuilderCall
  enable_logging : String → BuilderCall
  enable_feature : String → BuilderCall

-- A duration is in nanoseconds; `as_millis` gives 128 bits, which are cut to 64.
unfoldable pub call : BuilderCall → GlobalConfig → GlobalConfig
call (client_timeout duration) c = record c {
  client = record c.client { default_timeout_ms = u64 (duration / 1_000_000) };
}
call (enable_pooling enabled) c = record c { client = record c.client { enable_pooling = enabled } }
call (pool_config settings) c = record c { client = record c.client { pool = settings } }
call (max_retries retries) c = record c { client = record c.client { max_retries = retries } }
call (enable_logging level) c = record c {
  logging = record c.logging { enabled = true; level = level };
}
call (enable_feature feature) c = record c { features = enable_in feature c.features }

unfoldable pub build : GlobalConfig → Result GlobalConfig
build config = elim (validate config) [ err e ↦ err e | ok done ↦ ok config ]
