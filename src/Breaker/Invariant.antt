-- ===== src/Breaker/Invariant.antt =====
-- src/retry.rs, `CircuitBreaker`: what holds between calls.
use kode_bridge.Base.{ℕ, ◌+◌, ◌^◌, ◌≤◌, ◌<◌, ◌≡◌, ◌≢◌, none, arith}
use kode_bridge.Errors.{Result}
use kode_bridge.Breaker.{CircuitBreaker, closed, new, execute, reset}

-- The count of failures is below the threshold exactly while the breaker is closed, and a failure
-- time is kept exactly while the count is not zero.
pub record IsConsistent (b : CircuitBreaker) : Type 0 where
  pub closed_below : b.state ≡ closed → b.consecutive_failures < b.failure_threshold
  pub tripped_reached : ¬ (b.state ≡ closed) → b.failure_threshold ≤ b.consecutive_failures
  pub timed : 0 < b.consecutive_failures → b.last_failure_time ≢ none
  pub untimed : b.consecutive_failures ≡ 0 → b.last_failure_time ≡ none

pub new-IsConsistent : (n t : ℕ) → 0 < n → IsConsistent (new n t)
unfolding new
new-IsConsistent n t h = ground arith

pub reset-IsConsistent : (b : CircuitBreaker) → 0 < b.failure_threshold → IsConsistent (reset b)
unfolding reset
reset-IsConsistent b h = ground arith

-- A breaker with a positive threshold and a count of failures that has room for one more in 64 bits
-- is kept consistent by a call, whatever its operation answers and whatever the clock says.
pub execute-IsConsistent :
    {T : Type 0} (b : CircuitBreaker) (operation : Result T) (now later : ℕ)
    → 0 < b.failure_threshold
    → b.consecutive_failures + 1 < 2 ^ 64
    → IsConsistent b
    → IsConsistent (execute b operation now later).breaker
unfolding execute
execute-IsConsistent b operation now later h room c = ground arith
