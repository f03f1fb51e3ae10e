-- ===== src/Retry/Tests.antt =====
-- Runs of src/retry.rs at concrete inputs, and the theorems applied there.
use kode_bridge.Base.{
  ℕ, ◌-◌, ◌*◌, ◌/◌, ◌^◌, ◌≤◌, max, ◌≡◌, refl, ◌≢◌, none, some, [], ◌∷◌, arith, ltb, if◌then◌else◌,
}
use kode_bridge.Errors.{Result, ok, err, connection}
use kode_bridge.Retry.{
  Floats, RetryConfig, RetryState, Run, returned, fixed, decorrelated, millis, backoff_delay,
  apply_jitter, calculate_delay, decide_retry, default_should_retry, after_error, attempt_once,
  execute_loop, execute, for_quick_operations, for_network_operations, for_rate_limited_apis,
}
use kode_bridge.Retry.Delay.{DrawsInRange, ceiling, calculate_delay-none}
use kode_bridge.Retry.Attempts.{EndsAtFirstStop, execute-EndsAtFirstStop}
use kode_bridge.Retry.Budget.{sum, execute_budget}

-- Multipliers with one decimal.
abbrev decimals : Floats
decimals = record { F64 = ℕ; tenths = λ n. n; scale_powi = λ b m k. b * m ^ k / 10 ^ k }

abbrev lowest : ℕ → ℕ → ℕ
lowest lo hi = lo

lowest-DrawsInRange : DrawsInRange lowest
lowest-DrawsInRange lo hi h = (omega arith, h)

abbrev third : RetryState
third = record { attempt = 3; total_elapsed = 0; last_delay = millis 100 }

-- 50 ms, 100 ms, 200 ms.
network_third_delay :
    calculate_delay decimals (for_network_operations decimals) third lowest
    ≡ some (millis 200, record third { last_delay = millis 200 })
unfolding calculate_delay backoff_delay apply_jitter for_network_operations
network_third_delay = refl

-- A base of 2 s over a maximum of 1 s.
abbrev inverted : RetryConfig ℕ
inverted = record {
  max_attempts = 3;
  base_delay = millis 2_000;
  max_delay = millis 1_000;
  backoff_strategy = fixed;
  jitter_strategy = decorrelated;
  should_retry_fn = none;
}

-- A service that fails once.
abbrev flaky : ℕ → Result ℕ
flaky n = if ltb n 2 then err (connection "refused") else ok 42

quick : RetryConfig ℕ
unfolding for_quick_operations
quick = for_quick_operations decimals

quick_safe : (s : RetryState) (n : ℕ) → calculate_delay decimals quick s (λ lo hi. lo) ≢ none
unfolding quick for_quick_operations
quick_safe s n h = cc (((calculate_delay-none decimals quick s lowest).0 h).0)

execute-EndsAtFirstStop_example :
    (r : Run ℕ) × (execute decimals quick flaky (λ n. 5) (λ n. lowest) ≡ returned r)
    × EndsAtFirstStop decimals quick flaky 0 0 r
execute-EndsAtFirstStop_example =
    execute-EndsAtFirstStop decimals quick flaky (λ n. 5) (λ n. lowest) quick_safe

execute_budget_example :
    (r : Run ℕ) × (execute decimals quick flaky (λ n. 5) (λ n. lowest) ≡ returned r)
    × (r.state.attempt ≤ max 1 quick.max_attempts)
    × (sum r.delays ≤ (r.state.attempt - 1) * ceiling quick.jitter_strategy quick.max_delay)
execute_budget_example =
    execute_budget decimals quick flaky (λ n. 5) (λ n. lowest) (λ n. lowest-DrawsInRange) quick_safe

quick_run :
    execute decimals quick flaky (λ n. 5) (λ n. lowest)
    ≡ returned (record {
      result = ok 42;
      state = record { attempt = 2; total_elapsed = 5; last_delay = millis 10 };
      delays = millis 10 ∷ [];
    })
unfolding execute execute_loop attempt_once after_error decide_retry default_should_retry
    calculate_delay backoff_delay apply_jitter quick
quick_run = refl

presets_safe :
    (calculate_delay decimals (for_rate_limited_apis decimals) third lowest
      ≡ some (millis 1_000, record third { last_delay = millis 1_000 }))
unfolding calculate_delay backoff_delay apply_jitter for_rate_limited_apis
presets_safe = refl
