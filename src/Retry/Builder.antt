-- ===== src/Retry/Builder.antt =====
-- src/retry.rs: the methods that build a `RetryConfig`, its clone, and the functions around the
-- executor.
use kode_bridge.Base.{ℕ, Bool, none, some}
use kode_bridge.Errors.{KodeBridgeError, Result}
use kode_bridge.Retry.{
  Floats, RetryConfig, fixed, exponential, linear, JitterStrategy, default_config, Exit, execute,
}

module _ (f : Floats) where
  open f use {F64}

  unfoldable pub with_max_attempts : ℕ → RetryConfig F64 → RetryConfig F64
  with_max_attempts n config = record config { max_attempts = n }

  unfoldable pub with_base_delay : ℕ → RetryConfig F64 → RetryConfig F64
  with_base_delay delay config = record config { base_delay = delay }

  unfoldable with_max_delay : ℕ → RetryConfig F64 → RetryConfig F64
  with_max_delay delay config = record config { max_delay = delay }

  unfoldable exponential_backoff : F64 → RetryConfig F64 → RetryConfig F64
  exponential_backoff multiplier config = record config {
    backoff_strategy = exponential multiplier;
  }

  unfoldable fixed_backoff : RetryConfig F64 → RetryConfig F64
  fixed_backoff config = record config { backoff_strategy = fixed }

  unfoldable linear_backoff : ℕ → RetryConfig F64 → RetryConfig F64
  linear_backoff increment config = record config { backoff_strategy = linear increment }

  unfoldable pub jitter : JitterStrategy → RetryConfig F64 → RetryConfig F64
  jitter strategy config = record config { jitter_strategy = strategy }

  unfoldable should_retry : (KodeBridgeError → ℕ → Bool) → RetryConfig F64 → RetryConfig F64
  should_retry decide config = record config { should_retry_fn = some decide }

  -- `Clone for RetryConfig`, which leaves the decision out.
  unfoldable clone_config : RetryConfig F64 → RetryConfig F64
  clone_config config = record config { should_retry_fn = none }

  unfoldable pub retry :
      {T : Type 0} → RetryConfig F64 → (ℕ → Result T) → (ℕ → ℕ) → (ℕ → ℕ → ℕ → ℕ) → Exit T
  retry config = execute f config

  unfoldable retry_default : {T : Type 0} → (ℕ → Result T) → (ℕ → ℕ) → (ℕ → ℕ → ℕ → ℕ) → Exit T
  retry_default = retry (default_config f)
