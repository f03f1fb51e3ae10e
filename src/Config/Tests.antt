-- ===== src/Config/Tests.antt =====
-- A configuration by the builder and the environment, and the theorem applied there.
use kode_bridge.Base.{◌≡◌, refl, false, none, some, List, [], ◌∷◌}
use kode_bridge.Errors.{configuration, err}
use kode_bridge.Bytes.{bytes, parse_digits, from_str_radix, to_digit}
use kode_bridge.Config.{
  default_global, default_client, default_pool, default_features, Environment, apply_env_overrides,
  validate, BuilderCall, client_timeout, max_retries, enable_logging, enable_feature,
  is_feature_enabled, call, enable_in,
}

abbrev calls : List BuilderCall
calls =
    client_timeout 2_000_000_000
    ∷ max_retries 10
    ∷ enable_logging "warn"
    ∷ enable_feature "metrics"
    ∷ []

-- A feature that can be asked for but not enabled.
http2_stays_off : is_feature_enabled (call (enable_feature "http2") default_global) "http2" ≡ false
unfolding is_feature_enabled call enable_in default_global default_features
http2_stays_off = refl

-- A smaller pool by the environment has no room for the idle connections of the default.
abbrev small_pool : Environment
small_pool = record {
  timeout_ms = none;
  pooling = none;
  retries = none;
  log_level = none;
  pool_size = some (bytes "4");
}

small_pool_is_not_valid :
    validate (apply_env_overrides small_pool default_global)
    ≡ err (configuration "Pool min_idle cannot be greater than max_size")
unfolding validate apply_env_overrides default_global default_client default_pool parse_digits
    from_str_radix to_digit
small_pool_is_not_valid = refl
