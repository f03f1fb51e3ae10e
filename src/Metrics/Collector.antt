-- ===== src/Metrics/Collector.antt =====
-- src/metrics.rs: `MetricsCollector` and `RequestTracker`. A counter is a 64-bit atomic.
use kode_bridge.Base.{
  ℕ, ◌-◌, String, Bool, true, false, Option, none, some, List, [], ◌∷◌, ◌==◌, fetch_inc, fetch_dec,
  if◌then◌else◌,
}
use text.Mathlib.Text.{◌==◌ as str_eq}
use kode_bridge.Metrics.Trackers.{
  LatencyTracker, ThroughputTracker, new_latency_tracker, new_throughput_tracker, record_latency,
  record_request,
}

-- A `HashMap` of counters.
abbrev pub Counters : Type 0 → Type 0
Counters K = List (K × ℕ)

-- `entry(key).or_insert_with(0).fetch_add(1)`
unfoldable pub count_key : {K : Type 0} → (K → K → Bool) → K → Counters K → Counters K
count_key same key [] = (key, 1) ∷ []
count_key same key ((k, n) ∷ rest) =
    let counted = count_key same key rest in
    if same key k then (k, fetch_inc n) ∷ rest else (k, n) ∷ counted

-- `get(key)`, and `fetch_add(1)` where there is one. None where there is no such key.
unfoldable pub count_existing : {K : Type 0} → (K → K → Bool) → K → Counters K → Option (Counters K)
count_existing same key [] = none
count_existing same key ((k, n) ∷ rest) =
    let counted = count_existing same key rest in
    if same key k
    then some ((k, fetch_inc n) ∷ rest)
    else elim counted [ none ↦ none | some other ↦ some ((k, n) ∷ other) ]

-- `entry(key).or_insert_with(1)`, which leaves a key that is there as it is.
unfoldable pub insert_missing : {K : Type 0} → (K → K → Bool) → K → Counters K → Counters K
insert_missing same key [] = (key, 1) ∷ []
insert_missing same key ((k, n) ∷ rest) =
    let inserted = insert_missing same key rest in
    if same key k then (k, n) ∷ rest else (k, n) ∷ inserted

pub record RequestMetrics : Type 0 where
  pub total_requests : ℕ
  pub successful_requests : ℕ
  pub failed_requests : ℕ
  pub requests_by_method : Counters String
  pub requests_by_status : Counters ℕ
  pub active_requests : ℕ

pub record ConnectionMetrics : Type 0 where
  pub total_connections : ℕ
  pub active_connections : ℕ
  pub failed_connections : ℕ
  pub pool_hits : ℕ
  pub pool_misses : ℕ

pub record RetryStats : Type 0 where
  pub total_retries : ℕ
  pub successful_retries : ℕ
  pub failed_retries : ℕ
  pub retries_by_attempt : Counters ℕ

pub record ErrorMetrics : Type 0 where
  pub errors_by_type : Counters String
  pub total_errors : ℕ
  pub connection_errors : ℕ

-- The counters and trackers that the operations below write. The pool size, the latencies of
-- connections, and the counts of timeouts and of breaker trips are written by no operation; the
-- resource metrics are stored as given.
pub record MetricsCollector : Type 0 where
  pub requests : RequestMetrics
  pub connections : ConnectionMetrics
  pub request_latencies : LatencyTracker
  pub throughput : ThroughputTracker
  pub retry_stats : RetryStats
  pub errors : ErrorMetrics

unfoldable pub new_collector : ℕ → MetricsCollector
new_collector now = record {
  requests = record {
    total_requests = 0;
    successful_requests = 0;
    failed_requests = 0;
    requests_by_method = [];
    requests_by_status = [];
    active_requests = 0;
  };
  connections = record {
    total_connections = 0;
    active_connections = 0;
    failed_connections = 0;
    pool_hits = 0;
    pool_misses = 0;
  };
  request_latencies = new_latency_tracker now 1000;
  throughput = new_throughput_tracker 60000000000 100;
  retry_stats = record {
    total_retries = 0;
    successful_retries = 0;
    failed_retries = 0;
    retries_by_attempt = [];
  };
  errors = record { errors_by_type = []; total_errors = 0; connection_errors = 0 };
}

-- The counters of `request_start`, and the read of its method's counter. Whether there was one.
unfoldable pub start_counters : String → MetricsCollector → MetricsCollector × Bool
start_counters method m =
    let r = record m.requests {
      total_requests = fetch_inc m.requests.total_requests;
      active_requests = fetch_inc m.requests.active_requests;
    } in
    elim (count_existing str_eq method r.requests_by_method) [
      | some counted ↦ (record m { requests = record r { requests_by_method = counted } }, true)
      | none ↦ (record m { requests = r }, false)
    ]

-- The write that follows where the read found no counter. Other callers may come in between.
unfoldable pub insert_method : String → MetricsCollector → MetricsCollector
insert_method method m = record m {
  requests = record m.requests {
    requests_by_method = insert_missing str_eq method m.requests.requests_by_method;
  };
}

unfoldable pub record_throughput : ℕ → MetricsCollector → Option MetricsCollector
record_throughput now m = elim (record_request now m.throughput) [
  | none ↦ none
  | some t ↦ some (record m { throughput = t })
]

-- `request_start` by a caller that is alone. The tracker that it returns is its time of start.
unfoldable pub request_start : String → ℕ → MetricsCollector → Option MetricsCollector
request_start method now m =
    let (started, found) = start_counters method m in
    record_throughput now (if found then started else insert_method method started)

unfoldable pub connection_created : Bool → MetricsCollector → MetricsCollector
connection_created from_pool m =
    let c = record m.connections {
      total_connections = fetch_inc m.connections.total_connections;
      active_connections = fetch_inc m.connections.active_connections;
    } in
    record m {
      connections =
          if from_pool
          then record c { pool_hits = fetch_inc c.pool_hits }
          else record c { pool_misses = fetch_inc c.pool_misses };
    }

unfoldable pub connection_failed : MetricsCollector → MetricsCollector
connection_failed m = record m {
  connections = record m.connections {
    failed_connections = fetch_inc m.connections.failed_connections;
  };
  errors = record m.errors { connection_errors = fetch_inc m.errors.connection_errors };
}

unfoldable pub record_error : String → MetricsCollector → MetricsCollector
record_error error_type m = record m {
  errors = record m.errors {
    total_errors = fetch_inc m.errors.total_errors;
    errors_by_type = count_key str_eq error_type m.errors.errors_by_type;
  };
}

unfoldable pub record_retry : ℕ → Bool → MetricsCollector → MetricsCollector
record_retry attempt success m =
    let r = record m.retry_stats {
      total_retries = fetch_inc m.retry_stats.total_retries;
      retries_by_attempt = count_key ◌==◌ attempt m.retry_stats.retries_by_attempt;
    } in
    record m {
      retry_stats =
          if success
          then record r { successful_retries = fetch_inc r.successful_retries }
          else record r { failed_retries = fetch_inc r.failed_retries };
    }

-- `RequestTracker::complete`, for a request that started at `start_time`.
unfoldable pub complete : ℕ → Bool → Option ℕ → ℕ → MetricsCollector → MetricsCollector
complete start_time success status_code now m =
    let r = record m.requests { active_requests = fetch_dec m.requests.active_requests } in
    let counted =
      if success
      then record r { successful_requests = fetch_inc r.successful_requests }
      else record r { failed_requests = fetch_inc r.failed_requests } in
    record m {
      request_latencies = record_latency (now - start_time) m.request_latencies;
      requests = elim status_code [
        | none ↦ counted
        | some status ↦ record counted {
          requests_by_status = count_key ◌==◌ status counted.requests_by_status;
        }
      ];
    }

unfoldable pub success : ℕ → ℕ → ℕ → MetricsCollector → MetricsCollector
success start_time status_code now m = complete start_time true (some status_code) now m

unfoldable pub failure : ℕ → String → ℕ → MetricsCollector → MetricsCollector
failure start_time error_type now m = complete start_time false none now (record_error error_type m)

-- What some caller does without another in between. A `request_start` is a `starts`, an `inserts` where
-- its method has no counter, and a `throughput_at`.
pub data Event : Type 0 where
  starts : String → Event
  inserts : String → Event
  throughput_at : ℕ → Event
  succeeds : ℕ → ℕ → ℕ → Event
  fails : ℕ → String → ℕ → Event
  connects : Bool → Event
  connect_fails : Event
  errs : String → Event
  retries : ℕ → Bool → Event

unfoldable pub step : Event → MetricsCollector → MetricsCollector
step (starts method) m = (start_counters method m).0
step (inserts method) m = insert_method method m
step (throughput_at now) m = elim (record_throughput now m) [ none ↦ m | some n ↦ n ]
step (succeeds start_time status now) m = success start_time status now m
step (fails start_time error_type now) m = failure start_time error_type now m
step (connects from_pool) m = connection_created from_pool m
step connect_fails m = connection_failed m
step (errs error_type) m = record_error error_type m
step (retries attempt succeeded) m = record_retry attempt succeeded m

unfoldable pub run : List Event → MetricsCollector → MetricsCollector
run [] m = m
run (e ∷ es) m = run es (step e m)
