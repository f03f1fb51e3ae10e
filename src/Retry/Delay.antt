-- ===== src/Retry/Delay.antt =====
-- src/retry.rs, `calculate_delay`: the range of the delay, and when the draw of it panics.
use kode_bridge.Base.{u64, ℕ, ◌+◌, ◌*◌, ◌/◌, ◌≤◌, ◌<◌, min, max, ◌≡◌, ◌↔◌, none, some, arith}
use kode_bridge.Retry.{
  Floats, RetryConfig, RetryState, JitterStrategy, no_jitter, full, partial, decorrelated, millis,
  as_millis, backoff_delay, apply_jitter, calculate_delay,
}

-- `rand::random_range(lo..=hi)` lies in the range, if that is not empty.
abbrev pub DrawsInRange : (ℕ → ℕ → ℕ) → Type 0
DrawsInRange draw = (lo hi : ℕ) → lo ≤ hi → (lo ≤ draw lo hi) × (draw lo hi ≤ hi)

-- The most that a delay can be, for a jitter strategy and a configured maximum.
abbrev pub ceiling : JitterStrategy → ℕ → ℕ
ceiling no_jitter m = m
ceiling full m = m + m / 2
ceiling partial m = m + m / 4
ceiling decorrelated m = m

-- The least that it can be, given the delay that the backoff strategy asks for.
abbrev pub least : JitterStrategy → ℕ → ℕ → ℕ
least decorrelated base asked = millis (u64 (as_millis base))
least _ base asked = asked

-- The delay that the backoff strategy asks for, capped at the maximum.
abbrev pub asked : (f : Floats) → RetryConfig (f.F64) → ℕ → ℕ
asked f config attempt =
    min (backoff_delay f config.backoff_strategy config.base_delay attempt) config.max_delay

module _ (f : Floats) (config : RetryConfig (f.F64)) (state : RetryState) (draw : ℕ → ℕ → ℕ) where
  apply_jitter_bounds :
      (jitter : JitterStrategy) (capped delay : ℕ)
      → DrawsInRange draw
      → capped ≤ config.max_delay
      → apply_jitter f jitter config state draw capped ≡ some delay
      → (least jitter config.base_delay capped ≤ delay) × (delay ≤ ceiling jitter config.max_delay)
  unfolding apply_jitter
  apply_jitter_bounds no_jitter capped delay law h e = ground arith
  apply_jitter_bounds full capped delay law h e = ground (arith, law 0 (as_millis capped / 2))
  apply_jitter_bounds partial capped delay law h e = ground (arith, law 0 (as_millis capped / 4))
  apply_jitter_bounds decorrelated capped delay law h e = ground (arith, law low high)
    where
      low : ℕ
      low = u64 (as_millis config.base_delay)

      high : ℕ
      high =
          min (max (u64 (u64 (as_millis state.last_delay) * 3)) low)
            (u64 (as_millis config.max_delay))

  -- A delay lies between what the strategy asks for, capped at the maximum, and the maximum plus
  -- the strategy's share of it; the decorrelated one between the base and the maximum.
  pub calculate_delay_bounds :
      (delay : ℕ) (state' : RetryState)
      → DrawsInRange draw
      → calculate_delay f config state draw ≡ some (delay, state')
      → (least config.jitter_strategy config.base_delay (asked f config state.attempt) ≤ delay)
        × (delay ≤ ceiling config.jitter_strategy config.max_delay)
        × (state'.last_delay ≡ delay)
        × (state'.attempt ≡ state.attempt)
  unfolding calculate_delay
  calculate_delay_bounds delay state' law e =
      let got =
        apply_jitter_bounds config.jitter_strategy (asked f config state.attempt) delay law
          (omega arith) in
      ground (arith, got)

  -- The computation of a delay panics exactly if the jitter is decorrelated and the maximum is
  -- below the base, both in whole milliseconds.
  pub calculate_delay-none : (calculate_delay f config state draw ≡ none) ↔ (
      (config.jitter_strategy ≡ decorrelated)
      × (u64 (as_millis config.max_delay) < u64 (as_millis config.base_delay)))
  unfolding calculate_delay apply_jitter
  calculate_delay-none = (λ h. ground arith, λ h. ground arith)
