-- ===== src/Client/Sending.antt =====
-- src/ipc_http_client.rs: the configuration of a client with its executors, a request from its builder
-- to the result of its rounds, and the `request` of old callers. `rounds fresh request n` is what the
-- n-th round with that request comes to, on a fresh connection or any; `describe` is the text of the
-- error that the executor makes of the last one.
pub mod Answers
use kode_bridge.Base.{
  ℕ, zero, suc, ◌+◌, ◌-◌, ◌*◌, ◌≤◌, ◌<◌, ◌≡◌, ◌≢◌, ◌↔◌, ◌⊎◌, refl, sym, ap, subst, inl, inr, ◌∙◌,
  String, Bool, true, false, not, ◌&&◌, ◌||◌, ltb, leb, ◌==◌, List, [], ◌∷◌, ◌++◌, All, length,
  take, drop, drop-length, length-append, Option, none, some, if◌then◌else◌, Bool-cases,
  Option-cases, arith, max, min,
}
use Prim.Native.String.{◌++◌ as append}
use kode_bridge.Errors.{KodeBridgeError, http, invalid_request, Result, ok, err}
use kode_bridge.Bytes.{Bytes}
use kode_bridge.Retry.{
  Floats, RetryConfig, Exit, returned, panicked, out_of_fuel, with_context, millis,
  for_network_operations, for_put_requests,
}
use kode_bridge.Retry
use kode_bridge.Retry.Builder.{with_max_attempts, with_base_delay}
use kode_bridge.HttpClient.Request.{HeaderMaps, RequestBuilder, new_request, json, build}
use kode_bridge.Client.Connections.{Timed}
use kode_bridge.Client.Requests.{RequestBody, HttpRequestBuilder, prepare_request, wants_fresh}
use kode_bridge.Client.Exchange.{round_result, send_rounds}

-- The fields of `ClientConfig` that decide about retries and timeouts; `pool_retry_delay_ms` is
-- `pool_config.retry_delay_ms`.
pub record ClientConfig : Type 0 where
  pub default_timeout : ℕ
  pub enable_pooling : Bool
  pub max_retries : ℕ
  pub retry_delay : ℕ
  pub max_concurrent_requests : ℕ
  pub pool_retry_delay_ms : ℕ

unfoldable pub default_client_config : ClientConfig
default_client_config = record {
  default_timeout = millis 5_000;
  enable_pooling = true;
  max_retries = 3;
  retry_delay = millis 25;
  max_concurrent_requests = 16;
  pool_retry_delay_ms = 10;
}

module _ (f : Floats) where
  pub record IpcHttpClient : Type 0 where
    pub config : ClientConfig
    pub retry_config : RetryConfig (f.F64)
    pub put_retry_config : RetryConfig (f.F64)

  -- `with_config`; the executors are their configurations.
  unfoldable with_config : ClientConfig → IpcHttpClient
  with_config config = record {
    config = config;
    retry_config =
        with_base_delay f (millis config.pool_retry_delay_ms)
          (with_max_attempts f config.max_retries (for_network_operations f));
    put_retry_config = for_put_requests f;
  }

  module _ (h : HeaderMaps) (parse_method : String → Option Bytes)
      (invalid_method : String → String) {A : Type 0} (rounds : Bool → Bytes → ℕ → Timed (Result A))
      (duration : ℕ → ℕ) (draw : ℕ → ℕ → ℕ → ℕ) (describe : KodeBridgeError → String) where
    -- None where a delay panics, or the executor is without fuel.
    unfoldable pub executed : Exit A → Option (Result A)
    executed (returned run) = some (with_context describe run.result)
    executed panicked = none
    executed out_of_fuel = none

    -- `send_request_with_optimization`.
    unfoldable pub send_optimized : IpcHttpClient → HttpRequestBuilder → ℕ → Option (Result A)
    send_optimized client b timeout = elim (prepare_request h parse_method invalid_method b) [
      | err e ↦ some (err e)
      | ok request ↦ executed (
          send_rounds f client.put_retry_config client.retry_config b.put_optimized timeout
            (rounds (wants_fresh b) request) duration draw)
    ]

    unfoldable pub with_body : Option Bytes → RequestBuilder h → Option (RequestBuilder h)
    with_body none r = some r
    with_body (some value) r = json h value r

    unfoldable pub send_built : IpcHttpClient → ℕ → Option (RequestBuilder h) → Option (Result A)
    send_built client timeout none = some (err (http "failed to parse header value"))
    send_built client timeout (some r) = executed (
        Retry.execute f client.retry_config (λ n. round_result timeout (rounds false (build h r) n))
          duration draw)

    -- `send_request_internal`, which has no headers; a body is the text of a JSON value.
    unfoldable pub send_request_internal :
        IpcHttpClient → String → Bytes → Option Bytes → ℕ → Option (Result A)
    send_request_internal client method path body timeout = elim (parse_method method) [
      | none ↦ some (err (invalid_request (append "Invalid method: " (invalid_method method))))
      | some m ↦ send_built client timeout (with_body body (new_request h m path))
    ]

    -- `request`, before its response is turned into a legacy one.
    unfoldable pub request : IpcHttpClient → String → Bytes → Option Bytes → Option (Result A)
    request client method path body =
        send_request_internal client method path body client.config.default_timeout
