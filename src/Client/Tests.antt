-- ===== src/Client/Tests.antt =====
-- The client on concrete requests and exchanges, and the theorems applied there.
use kode_bridge.Base.{
  ℕ, ◌*◌, ◌≡◌, ◌⊎◌, refl, String, true, false, none, some, List, [], ◌∷◌, if◌then◌else◌, ltb, arith,
}
use kode_bridge.Errors.{KodeBridgeError, stream_closed, Result, ok, err}
use kode_bridge.Bytes.{bytes}
use kode_bridge.Pool.{Pool, PooledConnection, new_pool, new_connection}
use kode_bridge.Pool.Counter.{counter}
use kode_bridge.HttpClient.Response.{Response}
use kode_bridge.HttpClient.Sample.{crates, plain, no_reads, stream, response, parsed_response}
use kode_bridge.Metrics.Collector.{MetricsCollector, new_collector}
use kode_bridge.Client.Requests.{HttpRequestBuilder, json_value, new_http_request, with_json_body}
use kode_bridge.Client.Exchange.{leaves_stream_clean, send_request, counted_send}
use kode_bridge.Client.Batch.{put_batch}
use kode_bridge.Client.Batches.{results_of, AreBatches, put_batch_lem}
use kode_bridge.Client.Counting.{IsCounted, new_collector-IsSound, counted_send-IsCounted}
use kode_bridge.Client.Reuse.{IsFramed, IsDropped, idle_after, kept, return_connection-IsFramed}
use kode_bridge.Base.{◌/◌, ◌^◌, ◌≢◌, Bool, Option}
use kode_bridge.Bytes.{Bytes}
use kode_bridge.Retry.{Floats, RetryState, calculate_delay, for_quick_operations}
use kode_bridge.Retry.Delay.{calculate_delay-none}
use kode_bridge.HttpClient.Sample.{maps}
use kode_bridge.Client.Connections.{Timed, in_time, too_late}
use kode_bridge.Client.Sending.{IpcHttpClient, default_client_config, send_optimized, request}
use kode_bridge.Client.Sending.Answers.{
  IsGot, send_optimized-IsGot, plain_request, request_is_plain,
}

-- A request fails from 4 on.
send_small : ℕ → Result ℕ
send_small n = if ltb n 4 then ok (n * 10) else err stream_closed

abbrev requests : List ℕ
requests = 1 ∷ 2 ∷ 3 ∷ 4 ∷ 5 ∷ []

put_batch_lem_example :
    ((put_batch send_small 2 requests).result ≡ results_of send_small requests)
    × AreBatches send_small 2 requests (put_batch send_small 2 requests)
put_batch_lem_example = put_batch_lem send_small 2 requests (omega arith)

sent_batches : results_of send_small requests ≡ err stream_closed
unfolding send_small
sent_batches = refl

abbrev put_rules : HttpRequestBuilder
put_rules = record {
  method = "PUT";
  path = bytes "/rules";
  body = some (json_value (bytes "{}"));
  timeout = none;
  headers = [];
  put_optimized = true;
  expected_size = none;
}

built_rules : with_json_body (bytes "{}") (new_http_request "PUT" (bytes "/rules")) ≡ put_rules
unfolding with_json_body new_http_request
built_rules = refl

abbrev debug : KodeBridgeError → String
debug e = "Error"

abbrev collector : MetricsCollector
collector = new_collector 0

counted_send-IsCounted_example :
    (m' : MetricsCollector) × (counted_send debug "GET" 1 2 (err stream_closed) collector ≡ some m')
    × IsCounted false collector m'
unfolding new_collector
counted_send-IsCounted_example =
    counted_send-IsCounted debug "GET" 1 2 (err stream_closed) collector (omega arith)
      (new_collector-IsSound 0)

abbrev pool : Pool counter
pool = new_pool counter (record {
  max_size = 2;
  max_idle_time = 100;
  connection_timeout = 50;
  retry_delay = 10;
  max_retries = 2;
})

abbrev conn : PooledConnection
conn = new_connection 7 1

return_connection-IsFramed_example :
    ((idle_after crates plain no_reads counter pool conn 2 3 (ok response) ≡ pool.connections)
      × IsDropped crates plain no_reads counter pool conn 2 3 (ok response))
    ⊎ ((r : Response crates) × (◌≡◌ {A = Result (Response crates)} (ok response) (ok r))
        × (leaves_stream_clean crates r ≡ true)
        × IsFramed crates plain no_reads stream r
        × (idle_after crates plain no_reads counter pool conn 2 3 (ok response)
            ≡ kept crates plain no_reads counter pool conn 2 3))
unfolding send_request
return_connection-IsFramed_example =
    return_connection-IsFramed crates plain no_reads counter pool conn 2 3 (ok tt) stream
      (ok response) parsed_response

abbrev decimals : Floats
decimals = record { F64 = ℕ; tenths = λ n. n; scale_powi = λ b m k. b * m ^ k / 10 ^ k }

abbrev lowest : ℕ → ℕ → ℕ → ℕ
lowest n lo hi = lo

abbrev client : IpcHttpClient decimals
client = record {
  config = default_client_config;
  retry_config = for_quick_operations decimals;
  put_retry_config = for_quick_operations decimals;
}

abbrev any_method : String → Option Bytes
any_method method = some (bytes method)

-- The first round takes too long.
abbrev slow_then_quick : Bool → Bytes → ℕ → Timed (Result ℕ)
slow_then_quick fresh _ n = if ltb n 2 then too_late else in_time (ok 7)

client_safe :
    (s : RetryState) (n : ℕ)
    → calculate_delay decimals (for_quick_operations decimals) s (lowest n) ≢ none
unfolding for_quick_operations
client_safe s n h =
    cc (((calculate_delay-none decimals (for_quick_operations decimals) s (lowest n)).0 h).0)

abbrev told_method : String → String
told_method method = "invalid HTTP method"

abbrev told : KodeBridgeError → String
told e = "Operation failed after retries"

send_optimized-IsGot_example :
    (answer : Result ℕ) × (send_optimized decimals maps any_method told_method slow_then_quick
        (λ n. 5)
        lowest
        told
        client
        put_rules
        1_000_000
      ≡ some answer)
    × IsGot decimals maps any_method told_method slow_then_quick
        (λ n. 5)
        lowest
        told
        client
        put_rules
        answer
send_optimized-IsGot_example =
    send_optimized-IsGot decimals maps any_method told_method slow_then_quick (λ n. 5) lowest told
      client put_rules 1_000_000 client_safe

request_is_plain_example :
    request decimals maps any_method told_method slow_then_quick
      (λ n. 5)
      lowest
      told
      client
      "GET"
      (bytes "/")
      none
    ≡ send_optimized decimals maps any_method told_method slow_then_quick
        (λ n. 5)
        lowest
        told
        client
        (plain_request "GET" (bytes "/") none)
        5_000_000_000
unfolding default_client_config
request_is_plain_example =
    request_is_plain decimals maps any_method told_method slow_then_quick (λ n. 5) lowest told
      client "GET" (bytes "/") none
