-- ===== src/Retry/Attempts.antt =====
-- src/retry.rs, `RetryExecutor::execute`: the loop stops at the first attempt that ends it.
use kode_bridge.Base.{
  ℕ, zero, suc, ◌+◌, ◌≤◌, ◌<◌, ◌≡◌, refl, sym, ◌≢◌, ◌⊎◌, inl, inr, ◌∙◌, true, false, Option, none,
  some, List, [], ◌∷◌, ◌++◌, length, length-append, arith,
}
use mathlib.Core.Path.{subst}
use native.Mathlib.Decide.{ℕ_discrete}
use kode_bridge.Errors.{Result-cases, KodeBridgeError, Result, ok, err}
use kode_bridge.Retry.{
  Floats, RetryConfig, RetryState, Run, returned, decide_retry, calculate_delay, after_error,
  attempt_once, execute_loop, execute, initial_state,
}

module _ (f : Floats) {T : Type 0} (config : RetryConfig (f.F64)) (operation : ℕ → Result T) where
  -- The n-th attempt is followed by another one.
  abbrev pub Continues : ℕ → Type 0
  Continues n =
      (e : KodeBridgeError) × (operation n ≡ err e)
      × (decide_retry config.should_retry_fn e n ≡ true)
      × (n < config.max_attempts)

  -- The n-th attempt is the last one: a success, an error that is not retried, or the limit.
  abbrev pub Stops : ℕ → Type 0
  Stops n =
      ((v : T) × (operation n ≡ ok v))
      ⊎ ((e : KodeBridgeError) × (operation n ≡ err e)
          × ((decide_retry config.should_retry_fn e n ≡ false) ⊎ (config.max_attempts ≤ n)))

  -- The run is what the attempts after the `start`-th come to.
  pub record EndsAtFirstStop (start slept : ℕ) (r : Run T) : Type 0 where
    pub later : start < r.state.attempt
    pub answer : r.result ≡ operation r.state.attempt
    pub stops : Stops r.state.attempt
    pub earlier : (n : ℕ) → start < n → n < r.state.attempt → Continues n
    pub sleeps : length r.delays + start + 1 ≡ slept + r.state.attempt

  module _ (duration : ℕ → ℕ) (draw : ℕ → ℕ → ℕ → ℕ) where
    next : RetryState → RetryState
    next state = record {
      attempt = state.attempt + 1;
      total_elapsed = state.total_elapsed + duration (state.attempt + 1);
      last_delay = state.last_delay;
    }

    round_ok :
        (fuel : ℕ) (state : RetryState) (delays : List ℕ) (v : T)
        → operation (state.attempt + 1) ≡ ok v
        → execute_loop f config operation duration draw (suc fuel) state delays
          ≡ returned (record {
            result = ok v;
            state = record state { attempt = state.attempt + 1 };
            delays = delays;
          })
    unfolding execute_loop attempt_once
    round_ok fuel state delays v e = ground arith

    round_stop :
        (fuel : ℕ) (state : RetryState) (delays : List ℕ) (e : KodeBridgeError)
        → operation (state.attempt + 1) ≡ err e
        → (decide_retry config.should_retry_fn e (state.attempt + 1) ≡ false)
          ⊎ (config.max_attempts ≤ state.attempt + 1)
        → execute_loop f config operation duration draw (suc fuel) state delays
          ≡ returned (record { result = err e; state = next state; delays = delays })
    unfolding execute_loop attempt_once after_error next
    round_stop fuel state delays e h s = ground arith

    round_again :
        (fuel : ℕ) (state : RetryState) (delays : List ℕ) (e : KodeBridgeError) (delay : ℕ)
        (state' : RetryState)
        → operation (state.attempt + 1) ≡ err e
        → decide_retry config.should_retry_fn e (state.attempt + 1) ≡ true
        → state.attempt + 1 < config.max_attempts
        → calculate_delay f config (next state) (draw (state.attempt + 1)) ≡ some (delay, state')
        → execute_loop f config operation duration draw (suc fuel) state delays
          ≡ execute_loop f config operation duration draw fuel state' (delays ++ delay ∷ [])
    unfolding execute_loop attempt_once after_error next
    round_again fuel state delays e delay state' h d m c = ground arith

    delay_keeps_attempt :
        (state state' : RetryState) (draws : ℕ → ℕ → ℕ) (delay : ℕ)
        → calculate_delay f config state draws ≡ some (delay, state')
        → state'.attempt ≡ state.attempt
    unfolding calculate_delay
    delay_keeps_attempt state state' draws delay e = ground arith

    delay_exists :
        (o : Option (ℕ × RetryState)) → o ≢ none → (d : ℕ) × (s : RetryState) × (o ≡ some (d, s))
    delay_exists none h = absurd (h refl)
    delay_exists (some (d, s)) h = (d, s, refl)

    stop_here :
        (state : RetryState) (delays : List ℕ) (r : Run T)
        → r.state.attempt ≡ state.attempt + 1
        → r.delays ≡ delays
        → r.result ≡ operation (state.attempt + 1)
        → Stops (state.attempt + 1)
        → EndsAtFirstStop state.attempt (length delays) r
    stop_here state delays r a d e s = record {
      later = omega arith;
      answer = rw a e;
      stops = rw a s;
      earlier = λ n lo hi. absurd (omega arith);
      sleeps = rw d (omega arith);
    }

    go_on :
        (start slept start' slept' : ℕ) (r : Run T)
        → start' ≡ start + 1
        → slept' ≡ slept + 1
        → Continues (start + 1)
        → EndsAtFirstStop start' slept' r
        → EndsAtFirstStop start slept r
    go_on start slept start' slept' r se sl here rest = record {
      later = omega (arith, rest.later);
      answer = rest.answer;
      stops = rest.stops;
      earlier = λ n lo hi. earlier n lo hi;
      sleeps = omega (arith, rest.sleeps);
    }
      where
        earlier : (n : ℕ) → start < n → n < r.state.attempt → Continues n
        earlier n lo hi = elim (ℕ_discrete (start + 1) n) [
          | yes e ↦ subst Continues e here
          | no ne ↦ rest.earlier n (omega arith) hi
        ]

    abbrev Ends : ℕ → RetryState → List ℕ → Type 0
    Ends fuel state delays =
        (r : Run T) × (execute_loop f config operation duration draw fuel state delays ≡ returned r)
        × EndsAtFirstStop state.attempt (length delays) r

    first_round :
        (fuel : ℕ) (state : RetryState) (delays : List ℕ)
        → ((e : KodeBridgeError)
            → operation (state.attempt + 1) ≡ err e
            → decide_retry config.should_retry_fn e (state.attempt + 1) ≡ true
            → state.attempt + 1 < config.max_attempts
            → Ends (suc fuel) state delays)
        → Ends (suc fuel) state delays
    first_round fuel state delays again = elim (Result-cases (operation (state.attempt + 1))) [
      | inl (v, e) ↦
          let r : Run T = record {
            result = ok v;
            state = record state { attempt = state.attempt + 1 };
            delays = delays;
          } in
          (
            r,
            round_ok fuel state delays v e,
            stop_here state delays r refl refl (sym e) (inl (v, e)),
          )
      | inr (e, h) ↦ elim (last_or_more e) [
        | inl last ↦
            let r : Run T = record { result = err e; state = next state; delays = delays } in
            (
              r,
              round_stop fuel state delays e h last,
              stop_here state delays r (unfold next in refl) refl (sym h) (inr (e, h, last)),
            )
        | inr (d, m) ↦ again e h d m
      ]
    ]
      where
        last_or_more :
            (e : KodeBridgeError)
            → ((decide_retry config.should_retry_fn e (state.attempt + 1) ≡ false)
                ⊎ (config.max_attempts ≤ state.attempt + 1))
              ⊎ ((decide_retry config.should_retry_fn e (state.attempt + 1) ≡ true)
                  × (state.attempt + 1 < config.max_attempts))
        last_or_more e = ground arith

    loop-Ends :
        ((s : RetryState) (n : ℕ) → calculate_delay f config s (draw n) ≢ none)
        → (fuel : ℕ) (state : RetryState) (delays : List ℕ)
        → config.max_attempts ≤ fuel + state.attempt
        → Ends (suc fuel) state delays
    loop-Ends safe zero state delays enough =
        first_round zero state delays (λ e h d m. absurd (omega arith))
    loop-Ends safe (suc fuel) state delays enough = first_round (suc fuel) state delays λ e h d m.
        let n : ℕ = state.attempt + 1 in
        let (delay, state', c) =
          delay_exists (calculate_delay f config (next state) (draw n)) (safe (next state) n) in
        let a : state'.attempt ≡ state.attempt + 1 =
          delay_keeps_attempt (next state) state' (draw n) delay c ∙ (unfold next in refl) in
        let (r, runs, ends) =
          loop-Ends safe fuel state' (delays ++ delay ∷ []) (omega (arith, a)) in
        (
          r,
          round_again (suc fuel) state delays e delay state' h d m c ∙ runs,
          go_on state.attempt (length delays) state'.attempt (length (delays ++ delay ∷ [])) r a
              (length-append delays (delay ∷ [])) (e, h, d, m) ends,
        )

    -- If the delay of no state panics (with decorrelated jitter and a maximum below the base delay one
    -- does), a call of `execute` returns. What it returns is the answer of its last
    -- attempt, which is the first one that succeeds, fails for good or meets the limit; each attempt
    -- before it failed with an error to be retried, and one delay was slept between any two.
    pub execute-EndsAtFirstStop :
        ((s : RetryState) (n : ℕ) → calculate_delay f config s (draw n) ≢ none)
        → (r : Run T) × (execute f config operation duration draw ≡ returned r)
          × EndsAtFirstStop 0 0 r
    unfolding execute
    execute-EndsAtFirstStop safe = loop-Ends safe config.max_attempts initial_state [] (omega arith)
