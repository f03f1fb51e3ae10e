-- ===== src/Config/Asked.antt =====
-- src/config.rs, `ConfigBuilder`: the configuration that its calls ask for.
use kode_bridge.Base.{ℕ, ◌/◌, ◌≡◌, String, Bool, true, Option, none, some, List, [], ◌∷◌, u64}
use kode_bridge.Config.{
  PoolSettings, GlobalConfig, default_global, BuilderCall, client_timeout, enable_pooling,
  pool_config, max_retries, enable_logging, call,
}
use kode_bridge.Config.Features.{value_after, feature_of}

-- The value that the last call for a setting gives, or the one that it has without a call.
abbrev pub last_asked {ℓ} : {A : Type ℓ} → (BuilderCall → Option A) → A → List BuilderCall → A
last_asked asks old [] = old
last_asked asks old (c ∷ cs) = last_asked asks (value_after (asks c) old) cs

abbrev pub timeout_of : BuilderCall → Option ℕ
timeout_of (client_timeout duration) = some (u64 (duration / 1_000_000))
timeout_of _ = none

abbrev pub pooling_of : BuilderCall → Option Bool
pooling_of (enable_pooling enabled) = some enabled
pooling_of _ = none

abbrev pub pool_of : BuilderCall → Option PoolSettings
pool_of (pool_config settings) = some settings
pool_of _ = none

abbrev pub retries_of : BuilderCall → Option ℕ
retries_of (max_retries retries) = some retries
retries_of _ = none

abbrev pub level_of : BuilderCall → Option String
level_of (enable_logging level) = some level
level_of _ = none

abbrev pub logging_of : BuilderCall → Option Bool
logging_of (enable_logging level) = some true
logging_of _ = none

-- Every setting is what its last call gave, or the default, and a feature is on where it was asked
-- for or is on by default; HTTP/2 stays as it is.
pub record IsAsked (cs : List BuilderCall) (config : GlobalConfig) : Type 0 where
  pub timeout :
      config.client.default_timeout_ms
      ≡ last_asked timeout_of default_global.client.default_timeout_ms cs
  pub pooling :
      config.client.enable_pooling ≡ last_asked pooling_of default_global.client.enable_pooling cs
  pub pool : config.client.pool ≡ last_asked pool_of default_global.client.pool cs
  pub retries :
      config.client.max_retries ≡ last_asked retries_of default_global.client.max_retries cs
  pub retry_delay : config.client.retry_delay_ms ≡ default_global.client.retry_delay_ms
  pub connection_timeout :
      config.client.connection_timeout_ms ≡ default_global.client.connection_timeout_ms
  pub level : config.logging.level ≡ last_asked level_of default_global.logging.level cs
  pub logging : config.logging.enabled ≡ last_asked logging_of default_global.logging.enabled cs
  pub streaming : config.streaming ≡ default_global.streaming
  pub compression :
      config.features.compression
      ≡ last_asked (feature_of "compression") default_global.features.compression cs
  pub caching :
      config.features.caching ≡ last_asked (feature_of "caching") default_global.features.caching cs
  pub metrics :
      config.features.metrics ≡ last_asked (feature_of "metrics") default_global.features.metrics cs
  pub keep_alive :
      config.features.keep_alive
      ≡ last_asked (feature_of "keep_alive") default_global.features.keep_alive cs
  pub auto_reconnect :
      config.features.auto_reconnect
      ≡ last_asked (feature_of "auto_reconnect") default_global.features.auto_reconnect cs
  pub http2_support : config.features.http2_support ≡ default_global.features.http2_support

-- A call changes a setting as it asks.
abbrev StepAt :
    {A : Type 0}
    → (GlobalConfig → A)
    → (BuilderCall → Option A)
    → GlobalConfig
    → BuilderCall
    → Type 0
StepAt get asks config c = get (call c config) ≡ value_after (asks c) (get config)
