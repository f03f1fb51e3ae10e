-- ===== src/Metrics/Status.antt =====
-- src/metrics.rs, `HealthChecker::check_health`: what the status means.
use kode_bridge.Base.{ℕ, ◌<◌, ◌≡◌, refl, ◌↔◌, ◌⊎◌, true, Option, none, some, [], arith}
use kode_bridge.Metrics.Trackers.{Floats}
use kode_bridge.Metrics.Health.{
  healthy, critical, HealthThresholds, MetricsSnapshot, Report, check_snapshot, check_connections,
  check_p95, check_average, check_error_rate, to_critical, to_warning,
}

-- A latency that is over its threshold.
abbrev pub Over : ℕ → Option ℕ → Type 0
Over limit none = ⊥
Over limit (some v) = limit < v

module _ (f : Floats) (t : HealthThresholds f) (s : MetricsSnapshot f) where
  abbrev pub HighErrorRate : Type 0
  HighErrorRate =
      (0 < s.total_requests)
      × (f.exceeds (f.divide (f.from_nat s.failed_requests) (f.from_nat s.total_requests))
            t.max_error_rate
          ≡ true)

  abbrev pub IsCritical : Type 0
  IsCritical = HighErrorRate ⊎ Over t.max_p95_latency s.p95_latency

  abbrev pub IsWarning : Type 0
  IsWarning =
      Over t.max_avg_latency s.avg_latency ⊎ (t.max_active_connections < s.active_connections)

  abbrev Says : Report f → Type 0
  Says (status, issues) =
      ((status ≡ critical) ↔ IsCritical)
      × ((status ≡ healthy) ↔ ((¬ IsCritical) × (¬ IsWarning)))
      × ((issues ≡ []) ↔ (status ≡ healthy))

  says :
      (average p95 : Option ℕ)
      → s.avg_latency ≡ average
      → s.p95_latency ≡ p95
      → Says (check_snapshot f t s)
  unfolding check_snapshot check_connections check_p95 check_average check_error_rate to_critical
      to_warning
  says none none a p = ground (arith, a, p)
  says none (some y) a p = ground (arith, a, p)
  says (some x) none a p = ground (arith, a, p)
  says (some x) (some y) a p = ground (arith, a, p)

  -- The report is critical exactly if the error rate or the 95th percentile is over its threshold,
  -- healthy exactly if besides neither the average nor the number of connections is over its own,
  -- and it names an issue exactly if it is not healthy.
  pub check_snapshot_status :
      ((check_snapshot f t s).0 ≡ critical ↔ IsCritical)
      × ((check_snapshot f t s).0 ≡ healthy ↔ ((¬ IsCritical) × (¬ IsWarning)))
      × ((check_snapshot f t s).1 ≡ [] ↔ (check_snapshot f t s).0 ≡ healthy)
  check_snapshot_status = says s.avg_latency s.p95_latency refl refl
