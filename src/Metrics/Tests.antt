-- ===== src/Metrics/Tests.antt =====
-- The metrics on concrete histories.
use kode_bridge.Base.{ℕ, ◌*◌, ◌/◌, ◌≡◌, refl, ◌↔◌, true, none, [], ◌∷◌, ltb}
use kode_bridge.Metrics.Trackers.{Floats, LatencyTracker}
use kode_bridge.Metrics.Collector.{
  new_collector, step, run, starts, inserts, connects, succeeds, count_existing, insert_method,
  insert_missing, start_counters,
}
use kode_bridge.Metrics.Health.{
  HealthThresholds, MetricsSnapshot, check_snapshot, critical, healthy,
}
use kode_bridge.Metrics.Accounting.{Agrees, new_collector-Agrees, step-Agrees, run-Agrees}
use kode_bridge.Metrics.Status.{IsCritical, IsWarning, check_snapshot_status}

-- Numbers in place of floating point; a quotient in percent.
abbrev whole : Floats
whole = record {
  Float = ℕ;
  float_zero = 0;
  from_nat = λ n. n;
  as_secs = λ ns. ns / 1000000000;
  divide = λ a b. a * 100 / b;
  exceeds = λ a b. ltb b a;
  rank = λ n p. n * p / 100;
}

abbrev three_samples : LatencyTracker
three_samples = record { samples = 30 ∷ 10 ∷ 20 ∷ []; last_reset = 0; max_samples = 100 }

step-Agrees_example : Agrees (step (connects true) (new_collector 0))
step-Agrees_example = step-Agrees (connects true) (new_collector 0) (new_collector-Agrees 0)

run-Agrees_example :
    Agrees (run (starts "GET" ∷ inserts "GET" ∷ succeeds 0 200 7 ∷ []) (new_collector 0))
run-Agrees_example = run-Agrees 0 (starts "GET" ∷ inserts "GET" ∷ succeeds 0 200 7 ∷ [])

-- Two requests that start together with a method that has no counter yet are counted as one.
lost_count :
    (run
      (starts "GET" ∷ starts "GET" ∷ inserts "GET" ∷ inserts "GET" ∷ [])
      (new_collector 0)).requests.requests_by_method
    ≡ ("GET", 1) ∷ []
unfolding run step new_collector insert_method insert_missing start_counters count_existing
lost_count = refl

abbrev thresholds : HealthThresholds whole
thresholds = record {
  max_error_rate = 5;
  max_avg_latency = 500;
  max_p95_latency = 2000;
  max_active_connections = 1000;
}

abbrev failing : MetricsSnapshot whole
failing = record {
  total_requests = 10;
  failed_requests = 1;
  active_connections = 0;
  avg_latency = none;
  p95_latency = none;
}

check_snapshot_status_example :
    ((check_snapshot whole thresholds failing).0 ≡ critical ↔ IsCritical whole thresholds failing)
    × ((check_snapshot whole thresholds failing).0 ≡ healthy
        ↔ ((¬ IsCritical whole thresholds failing) × (¬ IsWarning whole thresholds failing)))
    × ((check_snapshot whole thresholds failing).1 ≡ []
        ↔ (check_snapshot whole thresholds failing).0 ≡ healthy)
check_snapshot_status_example = check_snapshot_status whole thresholds failing
