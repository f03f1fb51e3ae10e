-- ===== src/Breaker.antt =====
-- src/retry.rs: `CircuitBreaker`. An `Instant` and a `Duration` are numbers of nanoseconds. A call of
-- `execute` is given the instant of its clock readings: `now` for the test of the recovery timeout,
-- `later` for the record of a failure.
pub mod Invariant
pub mod Trip
mod Tests
use kode_bridge.Base.{u64, ℕ, ◌+◌, ◌-◌, Bool, true, false, Option, none, some, leb, if◌then◌else◌}
use kode_bridge.Errors.{Result, ok, err, custom}

pub data CircuitState : Type 0 where
  closed open_circuit half_open : CircuitState

pub record CircuitBreaker : Type 0 where
  pub failure_threshold : ℕ
  pub recovery_timeout : ℕ
  pub consecutive_failures : ℕ
  pub last_failure_time : Option ℕ
  pub state : CircuitState

unfoldable pub new : ℕ → ℕ → CircuitBreaker
new failure_threshold recovery_timeout = record {
  failure_threshold = failure_threshold;
  recovery_timeout = recovery_timeout;
  consecutive_failures = 0;
  last_failure_time = none;
  state = closed;
}

-- The guard before the operation: `none` rejects the call.
unfoldable pub admit_open : CircuitBreaker → Option ℕ → ℕ → Option CircuitBreaker
admit_open b none now = none
admit_open b (some last_failure) now =
    if leb b.recovery_timeout (now - last_failure)
    then some (record b { state = half_open })
    else none

unfoldable pub admit : CircuitState → CircuitBreaker → ℕ → Option CircuitBreaker
admit open_circuit b now = admit_open b b.last_failure_time now
admit _ b now = some b

-- The part after the operation. The count of failures wraps at 64 bits.
unfoldable pub settle {ℓ} : {T : Type ℓ} → CircuitBreaker → Result T → ℕ → CircuitBreaker
settle b (ok result) later = record b {
  consecutive_failures = 0;
  last_failure_time = none;
  state = closed;
}
settle b (err error) later =
    let failed = record b {
      consecutive_failures = u64 (b.consecutive_failures + 1);
      last_failure_time = some later;
    } in
    if leb failed.failure_threshold failed.consecutive_failures
    then record failed { state = open_circuit }
    else failed

-- The state after the call, what the caller gets, and whether the operation was called.
pub record Outcome {ℓ} (T : Type ℓ) : Type ℓ where
  pub breaker : CircuitBreaker
  pub result : Result T
  pub called : Bool

unfoldable pub execute {ℓ} : {T : Type ℓ} → CircuitBreaker → Result T → ℕ → ℕ → Outcome T
unfolding admit admit_open settle
execute b operation now later = elim (admit b.state b now) [
  | none ↦ record { breaker = b; result = err (custom "Circuit breaker is open"); called = false }
  | some b' ↦ record { breaker = settle b' operation later; result = operation; called = true }
]

unfoldable pub is_open : CircuitBreaker → Bool
is_open b = elim b.state [ open_circuit ↦ true | _ ↦ false ]

unfoldable pub reset : CircuitBreaker → CircuitBreaker
reset b = record b { consecutive_failures = 0; last_failure_time = none; state = closed }
