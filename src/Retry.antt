-- ===== src/Retry.antt =====
-- src/retry.rs: `RetryConfig`, `RetryState` and `RetryExecutor`.
-- A `Duration` is its number of nanoseconds. `operation n` is what the n-th call of the operation
-- returns and `duration n` how long that call takes; `draw n lo hi` is the value that
-- `rand::random_range(lo..=hi)` returns in the n-th round. Floating point is a parameter (`Floats`).
-- Logging is left out; what is slept is recorded. Unsigned arithmetic wraps, as in a release build.
pub mod Delay
pub mod Attempts
pub mod Decision
pub mod Budget
pub mod Builder
mod Tests
use kode_bridge.Base.{
  ℕ, u64, zero, suc, ◌+◌, ◌-◌, ◌*◌, ◌/◌, ◌%◌, ◌^◌, min, max, Bool, true, false, not, ◌||◌, Option,
  none, some, List, [], ◌∷◌, ◌++◌, String, leb, ◌==◌, if◌then◌else◌,
}
use kode_bridge.Errors.{
  KodeBridgeError, io, connection, timeout, stream_closed, server_error, pool_exhausted, custom,
  Result, ok, err,
}

-- `f64`, as far as the module uses it: the literals, given in tenths, and
-- `(base as f64 * multiplier.powi(k)) as u64`.
pub record Floats : Type 1 where
  pub F64 : Type 0
  pub tenths : ℕ → F64
  pub scale_powi : ℕ → F64 → ℕ → ℕ

pub data BackoffStrategy (F64 : Type 0) : Type 0 where
  fixed : BackoffStrategy F64
  exponential : F64 → BackoffStrategy F64
  linear : ℕ → BackoffStrategy F64

-- `no_jitter` is `JitterStrategy::None`.
pub data JitterStrategy : Type 0 where
  no_jitter full partial decorrelated : JitterStrategy

pub record RetryConfig (F64 : Type 0) : Type 0 where
  pub max_attempts : ℕ
  pub base_delay : ℕ
  pub max_delay : ℕ
  pub backoff_strategy : BackoffStrategy F64
  pub jitter_strategy : JitterStrategy
  pub should_retry_fn : Option (KodeBridgeError → ℕ → Bool)

pub record RetryState : Type 0 where
  pub attempt : ℕ
  pub total_elapsed : ℕ
  pub last_delay : ℕ

abbrev pub millis : ℕ → ℕ
millis ms = ms * 1_000_000

abbrev pub as_millis : ℕ → ℕ
as_millis d = d / 1_000_000

abbrev pub initial_state : RetryState
initial_state = record { attempt = 0; total_elapsed = 0; last_delay = 0 }

module _ (f : Floats) where
  open f use {F64, tenths, scale_powi}

  unfoldable pub default_config : RetryConfig F64
  default_config = record {
    max_attempts = 3;
    base_delay = millis 100;
    max_delay = millis 30_000;
    backoff_strategy = exponential (tenths 20);
    jitter_strategy = partial;
    should_retry_fn = none;
  }

  unfoldable pub for_network_operations : RetryConfig F64
  for_network_operations = record {
    max_attempts = 5;
    base_delay = millis 50;
    max_delay = millis 10_000;
    backoff_strategy = exponential (tenths 20);
    jitter_strategy = full;
    should_retry_fn = none;
  }

  unfoldable pub for_rate_limited_apis : RetryConfig F64
  for_rate_limited_apis = record {
    max_attempts = 10;
    base_delay = millis 1_000;
    max_delay = millis 60_000;
    backoff_strategy = exponential (tenths 15);
    jitter_strategy = decorrelated;
    should_retry_fn = none;
  }

  unfoldable pub for_quick_operations : RetryConfig F64
  for_quick_operations = record {
    max_attempts = 2;
    base_delay = millis 10;
    max_delay = millis 100;
    backoff_strategy = fixed;
    jitter_strategy = no_jitter;
    should_retry_fn = none;
  }

  unfoldable pub for_put_requests : RetryConfig F64
  for_put_requests = record {
    max_attempts = 2;
    base_delay = millis 25;
    max_delay = millis 200;
    backoff_strategy = exponential (tenths 15);
    jitter_strategy = partial;
    should_retry_fn = none;
  }

  unfoldable pub for_large_put_requests : RetryConfig F64
  for_large_put_requests = record {
    max_attempts = 3;
    base_delay = millis 50;
    max_delay = millis 500;
    backoff_strategy = linear (millis 50);
    jitter_strategy = partial;
    should_retry_fn = none;
  }

unfoldable pub default_should_retry : KodeBridgeError → ℕ → Bool
default_should_retry (io _) attempt = true
default_should_retry (connection _) attempt = true
default_should_retry (timeout _) attempt = true
default_should_retry stream_closed attempt = true
default_should_retry (server_error status) attempt = leb 500 status
default_should_retry pool_exhausted attempt = leb attempt 5
default_should_retry _ attempt = false

-- The configured decision, or the default one.
unfoldable pub decide_retry : Option (KodeBridgeError → ℕ → Bool) → KodeBridgeError → ℕ → Bool
decide_retry none e attempt = default_should_retry e attempt
decide_retry (some custom_fn) e attempt = custom_fn e attempt

module _ (f : Floats) where
  open f use {F64, scale_powi}

  unfoldable pub backoff_delay : BackoffStrategy F64 → ℕ → ℕ → ℕ
  backoff_delay fixed base attempt = base
  backoff_delay (exponential multiplier) base attempt =
      if attempt == 1 then base else millis (scale_powi (as_millis base) multiplier (attempt - 1))
  backoff_delay (linear increment) base attempt =
      base + increment * ((attempt % 2 ^ 32 + 2 ^ 32 - 1) % 2 ^ 32)

  -- `none`: `random_range` panics, since the range is empty.
  unfoldable pub apply_jitter :
      JitterStrategy → RetryConfig F64 → RetryState → (ℕ → ℕ → ℕ) → ℕ → Option ℕ
  apply_jitter no_jitter config state draw capped = some capped
  apply_jitter full config state draw capped =
      some (capped + millis (u64 (draw 0 (as_millis capped / 2))))
  apply_jitter partial config state draw capped =
      some (capped + millis (u64 (draw 0 (as_millis capped / 4))))
  apply_jitter decorrelated config state draw capped =
      let low = u64 (as_millis config.base_delay) in
      let high =
        min (max (u64 (u64 (as_millis state.last_delay) * 3)) low)
          (u64 (as_millis config.max_delay)) in
      if leb low high then some (millis (draw low high)) else none

  unfoldable pub calculate_delay :
      RetryConfig F64 → RetryState → (ℕ → ℕ → ℕ) → Option (ℕ × RetryState)
  calculate_delay config state draw =
      let base = backoff_delay config.backoff_strategy config.base_delay state.attempt in
      elim (apply_jitter config.jitter_strategy config state draw (min base config.max_delay)) [
        | none ↦ none
        | some delay ↦ some (delay, record state { last_delay = delay })
      ]

-- How a call of `execute` ends: its result, the final state and the delays that it slept.
pub record Run (T : Type 0) : Type 0 where
  pub result : Result T
  pub state : RetryState
  pub delays : List ℕ

pub data Exit (T : Type 0) : Type 0 where
  returned : Run T → Exit T
  panicked : Exit T
  out_of_fuel : Exit T

module _ (f : Floats) {T : Type 0} (config : RetryConfig (f.F64)) (operation : ℕ → Result T)
    (duration : ℕ → ℕ) (draw : ℕ → ℕ → ℕ → ℕ) where
  -- The part of the loop after a failed call; `again` is the next round.
  unfoldable pub after_error :
      KodeBridgeError → RetryState → List ℕ → (RetryState → List ℕ → Exit T) → Exit T
  after_error error state delays again =
      if not (decide_retry config.should_retry_fn error state.attempt)
        || leb config.max_attempts state.attempt
      then returned (record { result = err error; state = state; delays = delays })
      else elim (calculate_delay f config state (draw state.attempt)) [
        | none ↦ panicked
        | some (delay, state') ↦ again state' (delays ++ delay ∷ [])
      ]

  unfoldable pub attempt_once :
      Result T → RetryState → List ℕ → (RetryState → List ℕ → Exit T) → Exit T
  attempt_once (ok value) state delays again =
      returned (record { result = ok value; state = state; delays = delays })
  attempt_once (err error) state delays again =
      after_error error
        (record state { total_elapsed = state.total_elapsed + duration state.attempt }) delays again

  unfoldable pub execute_loop : ℕ → RetryState → List ℕ → Exit T
  execute_loop zero state delays = out_of_fuel
  execute_loop (suc fuel) state delays =
      attempt_once (operation (state.attempt + 1)) (record state { attempt = state.attempt + 1 })
        delays (λ s d. execute_loop fuel s d)

  -- A round that is not the last has `attempt < max_attempts`, so this fuel never runs out.
  unfoldable pub execute : Exit T
  execute = execute_loop (suc config.max_attempts) initial_state []

-- Every error is turned into a `Custom` one; `describe` is its message.
unfoldable pub with_context : {T : Type 0} → (KodeBridgeError → String) → Result T → Result T
with_context describe (ok value) = ok value
with_context describe (err error) = err (custom (describe error))
