-- ===== src/Metrics/Accounting.antt =====
-- src/metrics.rs, `MetricsCollector`: how its counters agree.
use kode_bridge.Base.{
  ◌==◌, String, ℕ, ◌+◌, ◌≡◌, inl, inr, Bool, true, false, none, List, [], ◌∷◌, Option-cases, u64,
  fetch_inc, arith,
}
use text.Mathlib.Text.{◌==◌ as str_eq}
use kode_bridge.Metrics.Trackers.{record_request}
use kode_bridge.Metrics.Collector.{
  Counters, MetricsCollector, count_key, new_collector, start_counters, insert_method,
  record_throughput, connection_created, connection_failed, record_error, record_retry, complete,
  success, failure, Event, step, run, starts, inserts, throughput_at, succeeds, fails, connects,
  connect_fails, errs, retries,
}

unfoldable pub total : {K : Type 0} → Counters K → ℕ
total [] = 0
total ((k, n) ∷ rest) = u64 (n + total rest)

total-count_key :
    {K : Type 0} (same : K → K → Bool) (key : K) (m : Counters K)
    → total (count_key same key m) ≡ fetch_inc (total m)
unfolding total count_key
total-count_key same key [] = omega arith
total-count_key same key ((k, n) ∷ rest) = ground (arith, total-count_key same key rest)

-- The counters of the collector agree, up to the wrap at 2 ^ 64: requests are successful, failed or
-- active; connections came from the pool or not, and none of them ever leaves the active ones;
-- retries succeeded or failed; errors and retries are counted by kind, successes by status.
pub record Agrees (m : MetricsCollector) : Type 0 where
  pub requests_split :
      u64 (m.requests.successful_requests + m.requests.failed_requests + m.requests.active_requests)
      ≡ m.requests.total_requests
  pub connections_split :
      u64 (m.connections.pool_hits + m.connections.pool_misses) ≡ m.connections.total_connections
  pub connections_stay : m.connections.active_connections ≡ m.connections.total_connections
  pub failures_counted : m.errors.connection_errors ≡ m.connections.failed_connections
  pub retries_split :
      u64 (m.retry_stats.successful_retries + m.retry_stats.failed_retries)
      ≡ m.retry_stats.total_retries
  pub retries_counted : total m.retry_stats.retries_by_attempt ≡ m.retry_stats.total_retries
  pub errors_counted : total m.errors.errors_by_type ≡ m.errors.total_errors
  pub statuses_counted : total m.requests.requests_by_status ≡ m.requests.successful_requests

pub new_collector-Agrees : (now : ℕ) → Agrees (new_collector now)
unfolding new_collector total
new_collector-Agrees now = ground arith

start_counters-Agrees :
    (method : String) (m : MetricsCollector) → Agrees m → Agrees (start_counters method m).0
unfolding start_counters
start_counters-Agrees method m a = ground arith

connection_created-Agrees :
    (from_pool : Bool) (m : MetricsCollector) → Agrees m → Agrees (connection_created from_pool m)
unfolding connection_created
connection_created-Agrees true m a = ground arith
connection_created-Agrees false m a = ground arith

record_error-Agrees :
    (error_type : String) (m : MetricsCollector) → Agrees m → Agrees (record_error error_type m)
unfolding record_error
record_error-Agrees error_type m a =
    ground (arith, total-count_key str_eq error_type m.errors.errors_by_type)

record_retry-Agrees :
    (attempt : ℕ) (success : Bool) (m : MetricsCollector)
    → Agrees m
    → Agrees (record_retry attempt success m)
unfolding record_retry
record_retry-Agrees attempt true m a =
    ground (arith, total-count_key ◌==◌ attempt m.retry_stats.retries_by_attempt)
record_retry-Agrees attempt false m a =
    ground (arith, total-count_key ◌==◌ attempt m.retry_stats.retries_by_attempt)

success-Agrees :
    (start_time status now : ℕ) (m : MetricsCollector)
    → Agrees m
    → Agrees (success start_time status now m)
unfolding success complete
success-Agrees start_time status now m a =
    ground (arith, total-count_key ◌==◌ status m.requests.requests_by_status)

complete_failed-Agrees :
    (start_time now : ℕ) (m : MetricsCollector)
    → Agrees m
    → Agrees (complete start_time false none now m)
unfolding complete
complete_failed-Agrees start_time now m a = ground arith

throughput-Agrees :
    (now : ℕ) (m : MetricsCollector) → Agrees m → Agrees (step (throughput_at now) m)
unfolding step record_throughput
throughput-Agrees now m a = elim (Option-cases (record_request now m.throughput)) [
  | inl e ↦ ground (arith, e)
  | inr (t, e) ↦ ground (arith, e)
]

-- The counters agree after every step of every caller.
pub step-Agrees : (e : Event) (m : MetricsCollector) → Agrees m → Agrees (step e m)
unfolding step failure
step-Agrees (starts method) m a = start_counters-Agrees method m a
step-Agrees (inserts method) m a = unfold insert_method in ground arith
step-Agrees (throughput_at now) m a = throughput-Agrees now m a
step-Agrees (succeeds start_time status now) m a = success-Agrees start_time status now m a
step-Agrees (fails start_time error_type now) m a =
    complete_failed-Agrees start_time now (record_error error_type m)
      (record_error-Agrees error_type m a)
step-Agrees (connects from_pool) m a = connection_created-Agrees from_pool m a
step-Agrees connect_fails m a = unfold connection_failed in ground arith
step-Agrees (errs error_type) m a = record_error-Agrees error_type m a
step-Agrees (retries attempt succeeded) m a = record_retry-Agrees attempt succeeded m a

run-Agrees_from : (events : List Event) (m : MetricsCollector) → Agrees m → Agrees (run events m)
unfolding run
run-Agrees_from [] m a = a
run-Agrees_from (e ∷ es) m a = run-Agrees_from es (step e m) (step-Agrees e m a)

-- From a new collector, the counters agree after any interleaving of callers.
pub run-Agrees : (now : ℕ) (events : List Event) → Agrees (run events (new_collector now))
run-Agrees now events = run-Agrees_from events (new_collector now) (new_collector-Agrees now)
