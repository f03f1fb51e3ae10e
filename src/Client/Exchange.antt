-- ===== src/Client/Exchange.antt =====
-- src/ipc_http_client.rs: one exchange on a connection, its rounds under the retry executor, and how
-- `send` counts it.
use kode_bridge.Base.{ℕ, ◌/◌, String, Bool, true, Option, none, some, List, if◌then◌else◌}
use kode_bridge.Errors.{KodeBridgeError, timeout, Result, ok, err}
use kode_bridge.Bytes.{Bytes, bytes}
use kode_bridge.Retry.{Floats, RetryConfig, Exit}
use kode_bridge.Retry
use kode_bridge.Pool.{PooledConnection, borrow_stream, mark_reusable}
use kode_bridge.HttpClient.Response.{Crates, Response, is_chunked, parse_response}
use kode_bridge.HttpClient.Reader.{Utf8, Read}
use kode_bridge.Metrics.Collector.{MetricsCollector, request_start, success, failure}
use kode_bridge.Client.Connections.{Timed, in_time, too_late}

module _ (c : Crates) where
  unfoldable pub leaves_stream_clean : Response c → Bool
  leaves_stream_clean r = elim (c.get r.headers (bytes "content-length")) [
    | some value ↦ true
    | none ↦ is_chunked c r.headers
  ]

  unfoldable pub mark_if_clean : Response c → PooledConnection → PooledConnection
  mark_if_clean r conn = if leaves_stream_clean r then mark_reusable conn else conn

  -- `send_request` of src/http_client.rs: `written` is what writing and flushing the request comes to.
  -- None where the reads of `reads` do not end the body.
  unfoldable pub send_request :
      Utf8 → (Bytes → List Read) → Result (Unit {0}) → Bytes → Option (Result (Response c))
  send_request u reads (err e) stream = some (err e)
  send_request u reads (ok done) stream = parse_response c u reads stream

  -- `send_pooled_request`, where `answer` is what `send_request` comes to on the borrowed stream.
  unfoldable pub send_pooled_request :
      PooledConnection → ℕ → Result (Response c) → PooledConnection × Result (Response c)
  unfolding borrow_stream
  send_pooled_request conn now (err e) = (borrow_stream now conn, err e)
  send_pooled_request conn now (ok r) = (mark_if_clean r (borrow_stream now conn), ok r)

-- A round that takes longer than the timeout fails with it, in milliseconds.
unfoldable pub round_result : {A : Type 0} → ℕ → Timed (Result A) → Result A
round_result limit (in_time answer) = answer
round_result limit too_late = err (timeout (limit / 1_000_000))

-- The rounds of a request, under the executor for PUT requests or the general one.
unfoldable pub send_rounds :
    (f : Floats) {A : Type 0}
    → RetryConfig (f.F64)
    → RetryConfig (f.F64)
    → Bool
    → ℕ
    → (ℕ → Timed (Result A))
    → (ℕ → ℕ)
    → (ℕ → ℕ → ℕ → ℕ)
    → Exit A
send_rounds f put_config config put_optimized limit rounds duration draw =
    Retry.execute f (if put_optimized then put_config else config)
      (λ n. round_result limit (rounds n)) duration draw

-- `send` around the request: what it counts, where `status` is that of the response. None if the
-- throughput tracker panics.
unfoldable pub count_outcome :
    (KodeBridgeError → String) → ℕ → ℕ → Result ℕ → MetricsCollector → MetricsCollector
count_outcome debug start now (ok status) m = success start status now m
count_outcome debug start now (err e) m = failure start (debug e) now m

unfoldable pub counted_send :
    (KodeBridgeError → String)
    → String
    → ℕ
    → ℕ
    → Result ℕ
    → MetricsCollector
    → Option MetricsCollector
counted_send debug method start now outcome m = elim (request_start method start m) [
  | none ↦ none
  | some started ↦ some (count_outcome debug start now outcome started)
]
