-- ===== src/Metrics/Health.antt =====
-- src/metrics.rs: `MetricsCollector::snapshot` and `HealthChecker::check_health`. An issue holds the
-- two numbers that its text shows.
use kode_bridge.Base.{none, some, Option, ℕ, List, [], ◌∷◌, ◌++◌, ltb, if◌then◌else◌}
use kode_bridge.Metrics.Trackers.{
  no_samples, value_at, out_of_range, Floats, Indexed, value_at, average, percentile,
}
use kode_bridge.Metrics.Collector.{MetricsCollector}

pub data HealthStatus : Type 0 where
  healthy warning critical : HealthStatus

-- The `Option<Duration>` of a tracker, or none if it panics.
unfoldable pub answer_of : Indexed → Option (Option ℕ)
answer_of no_samples = some none
answer_of (value_at v) = some (some v)
answer_of out_of_range = none

module _ (f : Floats) where
  open f use {Float, from_nat, divide, exceeds}

  -- The thresholds that the check reads; `min_success_rate` is not among them.
  pub record HealthThresholds : Type 0 where
    pub max_error_rate : Float
    pub max_avg_latency : ℕ
    pub max_p95_latency : ℕ
    pub max_active_connections : ℕ

  pub data Issue : Type 0 where
    high_error_rate : Float → Float → Issue
    high_average_latency : ℕ → ℕ → Issue
    high_p95_latency : ℕ → ℕ → Issue
    too_many_connections : ℕ → ℕ → Issue

  -- What the health check reads of a snapshot.
  pub record MetricsSnapshot : Type 0 where
    pub total_requests : ℕ
    pub failed_requests : ℕ
    pub active_connections : ℕ
    pub avg_latency : Option ℕ
    pub p95_latency : Option ℕ

  -- None if it panics.
  unfoldable pub snapshot : MetricsCollector → Option MetricsSnapshot
  snapshot m = elim (answer_of (average m.request_latencies)) [
    | none ↦ none
    | some avg ↦ elim (answer_of (percentile f 95 m.request_latencies)) [
      | none ↦ none
      | some p95 ↦ some (record {
        total_requests = m.requests.total_requests;
        failed_requests = m.requests.failed_requests;
        active_connections = m.connections.active_connections;
        avg_latency = avg;
        p95_latency = p95;
      })
    ]
  ]

  -- A check adds its issue and raises the status.
  abbrev pub Report : Type 0
  Report = HealthStatus × List Issue

  unfoldable pub to_critical : Issue → Report → Report
  to_critical issue (status, issues) = (critical, issues ++ (issue ∷ []))

  unfoldable pub to_warning : Issue → Report → Report
  to_warning issue (healthy, issues) = (warning, issues ++ (issue ∷ []))
  to_warning issue (warning, issues) = (warning, issues ++ (issue ∷ []))
  to_warning issue (critical, issues) = (critical, issues ++ (issue ∷ []))

  unfoldable pub check_error_rate : HealthThresholds → MetricsSnapshot → Report → Report
  check_error_rate t s report =
      let error_rate = divide (from_nat s.failed_requests) (from_nat s.total_requests) in
      if ltb 0 s.total_requests
      then if exceeds error_rate t.max_error_rate
        then to_critical (high_error_rate error_rate t.max_error_rate) report
        else report
      else report

  unfoldable pub check_average : HealthThresholds → Option ℕ → Report → Report
  check_average t (some avg_latency) report =
      if ltb t.max_avg_latency avg_latency
      then to_warning (high_average_latency avg_latency t.max_avg_latency) report
      else report
  check_average t none report = report

  unfoldable pub check_p95 : HealthThresholds → Option ℕ → Report → Report
  check_p95 t (some p95_latency) report =
      if ltb t.max_p95_latency p95_latency
      then to_critical (high_p95_latency p95_latency t.max_p95_latency) report
      else report
  check_p95 t none report = report

  unfoldable pub check_connections : HealthThresholds → ℕ → Report → Report
  check_connections t active_connections report =
      if ltb t.max_active_connections active_connections
      then to_warning (too_many_connections active_connections t.max_active_connections) report
      else report

  unfoldable pub check_snapshot : HealthThresholds → MetricsSnapshot → Report
  check_snapshot t s = check_connections t s.active_connections (
      check_p95 t s.p95_latency
        (check_average t s.avg_latency (check_error_rate t s (healthy, []))))

  unfoldable pub check_health : HealthThresholds → MetricsCollector → Option Report
  check_health t m = elim (snapshot m) [ none ↦ none | some s ↦ some (check_snapshot t s) ]
