-- ===== src/Retry/Budget.antt =====
-- src/retry.rs, `RetryExecutor::execute`: how many calls it makes and how long it sleeps.
use kode_bridge.Base.{
  ℕ, zero, suc, ◌+◌, ◌-◌, ◌*◌, ◌≤◌, ◌<◌, max, not, ◌||◌, leb, ◌≡◌, ◌≢◌, refl, sym, ◌⊎◌, inl, inr,
  none, some, List, [], ◌∷◌, ◌++◌, length, All, All-append, Bool-cases, Option-cases, arith,
}
use mathlib.Core.Path.{subst}
use kode_bridge.Errors.{KodeBridgeError, Result, ok, err}
use kode_bridge.Retry.{
  Floats, RetryConfig, RetryState, Run, Exit, returned, decide_retry, calculate_delay, after_error,
  attempt_once, execute_loop, execute, initial_state,
}
use kode_bridge.Retry.Delay.{DrawsInRange, ceiling, calculate_delay_bounds}
use kode_bridge.Retry.Attempts.{EndsAtFirstStop, execute-EndsAtFirstStop}

pub sum : List ℕ → ℕ
sum [] = 0
sum (x ∷ xs) = x + sum xs

sum-le : (bound : ℕ) (xs : List ℕ) → All (λ x. x ≤ bound) xs → sum xs ≤ length xs * bound
unfolding sum
sum-le bound [] h = omega arith
sum-le bound (x ∷ xs) h = let ih = sum-le bound xs h.1 in let hx = h.0 in grind arith

module _ (f : Floats) {T : Type 0} (config : RetryConfig (f.F64)) (operation : ℕ → Result T)
    (duration : ℕ → ℕ) (draw : ℕ → ℕ → ℕ → ℕ) where
  abbrev bound : ℕ
  bound = ceiling config.jitter_strategy config.max_delay

  attempts-le :
      (r : Run T)
      → EndsAtFirstStop f config operation 0 0 r
      → r.state.attempt ≤ max 1 config.max_attempts
  attempts-le r ends = elim (few r.state.attempt) [
    | inl h ↦ omega arith
    | inr (m, one, e) ↦
        let (_, _, _, below) = ends.earlier m one (omega (arith, e)) in omega (arith, below, e)
  ]
    where
      few : (n : ℕ) → (n ≤ 1) ⊎ ((m : ℕ) × (0 < m) × (n ≡ suc m))
      few zero = inl (omega arith)
      few (suc zero) = inl (omega arith)
      few (suc (suc n)) = inr (suc n, omega arith, refl)

  module _ (law : (n : ℕ) → DrawsInRange (draw n)) where
    after_error_cases :
        (error : KodeBridgeError) (state : RetryState) (delays : List ℕ)
        (again : RetryState → List ℕ → Exit T) (r : Run T)
        → after_error f config operation duration draw error state delays again ≡ returned r
        → (r.delays ≡ delays)
          ⊎ ((d : ℕ) × (s : RetryState) × (calculate_delay f config state (draw state.attempt)
                ≡ some (d, s))
              × (again s (delays ++ d ∷ []) ≡ returned r))
    unfolding after_error
    after_error_cases error state delays again r e =
        elim (Option-cases (calculate_delay f config state (draw state.attempt))) [
          | inl c ↦ inl (ground arith)
          | inr ((d, s), c) ↦
              elim (Bool-cases (
                not (decide_retry config.should_retry_fn error state.attempt)
                || leb config.max_attempts state.attempt)) [
                  | inl last ↦ inl (ground arith)
                  | inr more ↦ inr (d, s, c, ground arith)
                ]
        ]

    attempt_once-delays :
        (answer : Result T) (state : RetryState) (delays : List ℕ)
        (again : RetryState → List ℕ → Exit T) (r : Run T)
        → All (λ d. d ≤ bound) delays
        → ((s : RetryState) (ds : List ℕ)
            → All (λ d. d ≤ bound) ds
            → again s ds ≡ returned r
            → All (λ d. d ≤ bound) r.delays)
        → attempt_once f config operation duration draw answer state delays again ≡ returned r
        → All (λ d. d ≤ bound) r.delays
    unfolding attempt_once
    attempt_once-delays (ok v) state delays again r h k e =
        let same : delays ≡ r.delays = ground arith in subst (All (λ d. d ≤ bound)) same h
    attempt_once-delays (err x) state delays again r h k e =
        elim (after_error_cases x failed delays again r e) [
          | inl same ↦ subst (All (λ d. d ≤ bound)) (sym same) h
          | inr (d, s, c, e') ↦
              k s (delays ++ d ∷ [])
                (All-append _ delays (d ∷ []) h (
                  (calculate_delay_bounds f config failed (draw state.attempt) d s
                      (law state.attempt) c).1,
                  tt,
                ))
                e'
        ]
      where
        failed : RetryState
        failed = record state { total_elapsed = state.total_elapsed + duration state.attempt }

    loop-delays :
        (fuel : ℕ) (state : RetryState) (delays : List ℕ) (r : Run T)
        → All (λ d. d ≤ bound) delays
        → execute_loop f config operation duration draw fuel state delays ≡ returned r
        → All (λ d. d ≤ bound) r.delays
    unfolding execute_loop
    loop-delays zero state delays r h e = cc
    loop-delays (suc fuel) state delays r h e =
        attempt_once-delays (operation (state.attempt + 1)) _ delays _ r h
          (λ s ds hs. loop-delays fuel s ds r hs) e

    -- If the delay of no state panics and random draws keep to their range, a call of `execute` returns, has
    -- called the operation at most `max_attempts` times (once, if that is zero), and has slept in
    -- all at most the ceiling of a delay for each call but one.
    pub execute_budget :
        ((s : RetryState) (n : ℕ) → calculate_delay f config s (draw n) ≢ none)
        → (r : Run T) × (execute f config operation duration draw ≡ returned r)
          × (r.state.attempt ≤ max 1 config.max_attempts)
          × (sum r.delays ≤ (r.state.attempt - 1) * ceiling config.jitter_strategy config.max_delay)
    unfolding execute
    execute_budget safe =
        let (r, runs, ends) = execute-EndsAtFirstStop f config operation duration draw safe in
        let total =
          sum-le bound r.delays
            (loop-delays (suc config.max_attempts) initial_state [] r tt runs) in
        let n : length r.delays ≡ r.state.attempt - 1 = omega (arith, ends.sleeps) in
        (r, runs, attempts-le r ends, rw n at total)
