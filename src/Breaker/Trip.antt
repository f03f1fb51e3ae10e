-- ===== src/Breaker/Trip.antt =====
-- src/retry.rs, `CircuitBreaker`: when a breaker trips, what it does while it is open, and how it
-- recovers.
use kode_bridge.Base.{
  ℕ, ◌+◌, ◌-◌, ◌^◌, ◌≤◌, ◌<◌, ◌≡◌, refl, sym, ap, subst, ◌∙◌, true, false, some, List, [], ◌∷◌, All,
  arith,
}
use kode_bridge.Errors.{KodeBridgeError, Result, ok, err, custom}
use kode_bridge.Breaker.{CircuitBreaker, closed, open_circuit, Outcome, execute}

-- A call of `execute`: what its operation would answer, and the two clock readings.
pub record Call (T : Type 0) : Type 0 where
  pub operation : Result T
  pub now : ℕ
  pub later : ℕ

module _ {T : Type 0} where
  unfoldable pub call : CircuitBreaker → Call T → Outcome T
  call b c = execute b c.operation c.now c.later

  unfoldable pub run : CircuitBreaker → List (Call T) → CircuitBreaker
  run b [] = b
  run b (c ∷ cs) = run (call b c).breaker cs

  -- The failures in a row at the end of a history, after `n` before it.
  abbrev pub after_answer : ℕ → Result T → ℕ
  after_answer n (ok _) = 0
  after_answer n (err _) = n + 1

  abbrev pub streak : ℕ → List (Call T) → ℕ
  streak n [] = n
  streak n (c ∷ cs) = streak (after_answer n c.operation) cs

  -- No prefix of the history ends in `limit` failures in a row.
  abbrev pub StaysBelow : ℕ → ℕ → List (Call T) → Type 0
  StaysBelow limit n [] = Unit {0}
  StaysBelow limit n (c ∷ cs) =
      (after_answer n c.operation < limit) × StaysBelow limit (after_answer n c.operation) cs

  call_closed :
      (limit n : ℕ) (b : CircuitBreaker) (c : Call T)
      → limit < 2 ^ 64
      → b.failure_threshold ≡ limit
      → b.consecutive_failures ≡ n
      → b.state ≡ closed
      → after_answer n c.operation < limit
      → ((call b c).breaker.state ≡ closed)
        × ((call b c).breaker.consecutive_failures ≡ after_answer n c.operation)
        × ((call b c).breaker.failure_threshold ≡ limit)
  unfolding call execute
  call_closed limit n b c small l k s h = ground arith

  -- While no streak of failures reaches the threshold, a closed breaker stays closed, and its count
  -- is the current streak.
  pub run_closed :
      (limit n : ℕ) (b : CircuitBreaker) (cs : List (Call T))
      → limit < 2 ^ 64
      → b.failure_threshold ≡ limit
      → b.consecutive_failures ≡ n
      → b.state ≡ closed
      → StaysBelow limit n cs
      → ((run b cs).state ≡ closed)
        × ((run b cs).consecutive_failures ≡ streak n cs)
        × ((run b cs).failure_threshold ≡ limit)
  unfolding run
  run_closed limit n b [] small l k s h = (s, k, l)
  run_closed limit n b (c ∷ cs) small l k s h =
      let (s', k', l') = call_closed limit n b c small l k s h.0 in
      run_closed limit (after_answer n c.operation) (call b c).breaker cs small l' k' s' h.1

  call_timeout :
      (b : CircuitBreaker) (c : Call T) → (call b c).breaker.recovery_timeout ≡ b.recovery_timeout
  unfolding call execute
  call_timeout b c = ground arith

  run_timeout :
      (b : CircuitBreaker) (cs : List (Call T)) → (run b cs).recovery_timeout ≡ b.recovery_timeout
  unfolding run
  run_timeout b [] = refl
  run_timeout b (c ∷ cs) = run_timeout (call b c).breaker cs ∙ call_timeout b c

  -- The failure that completes a streak of `failure_threshold` failures opens the breaker, and
  -- the time of that failure and the count are kept.
  trips :
      (b : CircuitBreaker) (cs : List (Call T)) (e : KodeBridgeError) (now later : ℕ)
      → b.failure_threshold < 2 ^ 64
      → b.state ≡ closed
      → StaysBelow b.failure_threshold b.consecutive_failures cs
      → streak b.consecutive_failures cs + 1 ≡ b.failure_threshold
      → let o = execute {T = T} (run b cs) (err e) now later in
        (o.breaker.state ≡ open_circuit)
        × (o.breaker.last_failure_time ≡ some later)
        × (o.breaker.consecutive_failures ≡ b.failure_threshold)
        × (o.breaker.failure_threshold ≡ b.failure_threshold)
        × (o.breaker.recovery_timeout ≡ b.recovery_timeout)
        × (o.called ≡ true)
  unfolding execute
  trips b cs e now later small s h reached = ground (
    arith,
    run_closed b.failure_threshold b.consecutive_failures b cs small refl refl s h,
    run_timeout b cs,
  )

  -- A call that comes before the recovery timeout has passed since `failed_at`.
  abbrev pub IsEarly : CircuitBreaker → ℕ → Call T → Type 0
  IsEarly b failed_at c = c.now - failed_at < b.recovery_timeout

  IsEarly-same :
      (b b' : CircuitBreaker) (failed_at : ℕ) (cs : List (Call T))
      → b'.recovery_timeout ≡ b.recovery_timeout
      → All (IsEarly b failed_at) cs
      → All (IsEarly b' failed_at) cs
  IsEarly-same b b' failed_at [] e h = tt
  IsEarly-same b b' failed_at (c ∷ cs) e h =
      (omega (arith, h.0, e), IsEarly-same b b' failed_at cs e h.1)

  early :
      (b : CircuitBreaker) (failed_at : ℕ) (c : Call T)
      → b.state ≡ open_circuit
      → b.last_failure_time ≡ some failed_at
      → IsEarly b failed_at c
      → (call b c).breaker ≡ b
  unfolding call execute
  early b failed_at c s t h = ground arith

  -- Within the recovery timeout an open breaker rejects every call, without calling the operation,
  -- and does not change.
  pub rejects :
      (b : CircuitBreaker) (failed_at : ℕ) (cs : List (Call T)) (c : Call T)
      → b.state ≡ open_circuit
      → b.last_failure_time ≡ some failed_at
      → All (IsEarly b failed_at) cs
      → IsEarly b failed_at c
      → (run b cs ≡ b)
        × ((call (run b cs) c).called ≡ false)
        × ((call (run b cs) c).result ≡ err (custom "Circuit breaker is open"))
  unfolding run call execute
  rejects b failed_at [] c s t h e = ground arith
  rejects b failed_at (x ∷ cs) c s t h e =
      let same : (call b x).breaker ≡ b = early b failed_at x s t h.0 in
      rw same (rejects b failed_at cs c s t h.1 e)

  -- What an open breaker does with a call: after the recovery timeout the call goes through.
  pub record IsRecovery (b : CircuitBreaker) (c : Call T) : Type 0 where
    pub called : (call b c).called ≡ true
    pub answered : (call b c).result ≡ c.operation
    pub closes :
        (v : T)
        → c.operation ≡ ok v
        → ((call b c).breaker.state ≡ closed) × ((call b c).breaker.consecutive_failures ≡ 0)
    pub opens_again :
        (e : KodeBridgeError)
        → c.operation ≡ err e
        → ((call b c).breaker.state ≡ open_circuit)
          × ((call b c).breaker.last_failure_time ≡ some c.later)

  recovers :
      (b : CircuitBreaker) (failed_at : ℕ) (c : Call T)
      → b.state ≡ open_circuit
      → b.failure_threshold ≤ b.consecutive_failures
      → b.consecutive_failures + 1 < 2 ^ 64
      → b.last_failure_time ≡ some failed_at
      → b.recovery_timeout ≤ c.now - failed_at
      → IsRecovery b c
  unfolding call execute
  recovers b failed_at c s reached room t h = record {
    called = ground arith;
    answered = ground arith;
    closes = λ v o. ground arith;
    opens_again = λ e o. ground arith;
  }

  -- A closed breaker, whose threshold and one more fit in 64 bits, stays closed through a history in
  -- which no streak of failures reaches the threshold. The failure that completes such a streak
  -- opens it; then every call within the recovery timeout of that failure is rejected without
  -- calling the operation and changes nothing, and the first call after the timeout goes through:
  -- its success closes the breaker and clears the count, its failure opens it again from the time of
  -- that failure.
  pub trips_and_recovers :
      (b : CircuitBreaker) (history : List (Call T)) (e : KodeBridgeError) (now later : ℕ)
      (waiting : List (Call T)) (early_call late_call : Call T)
      → b.failure_threshold + 1 < 2 ^ 64
      → b.state ≡ closed
      → StaysBelow b.failure_threshold b.consecutive_failures history
      → streak b.consecutive_failures history + 1 ≡ b.failure_threshold
      → All (IsEarly b later) waiting
      → IsEarly b later early_call
      → b.recovery_timeout ≤ late_call.now - later
      → let tripped = (execute {T = T} (run b history) (err e) now later).breaker in
        ((run b history).state ≡ closed)
        × (tripped.state ≡ open_circuit)
        × (run tripped waiting ≡ tripped)
        × ((call tripped early_call).called ≡ false)
        × ((call tripped early_call).result ≡ err (custom "Circuit breaker is open"))
        × ((call tripped early_call).breaker ≡ tripped)
        × IsRecovery (run tripped waiting) late_call
  trips_and_recovers b history e now later waiting early_call late_call room s below reached ws w
        l =
      let tripped = (execute {T = T} (run b history) (err e) now later).breaker in
      let (opened, at, count, threshold, timeout, _) =
        trips b history e now later (omega (arith, room)) s below reached in
      let ws' = IsEarly-same b tripped later waiting timeout ws in
      let early_again : IsEarly tripped later early_call = omega (arith, w, timeout) in
      let (same, not_called, error) =
        rejects tripped later waiting early_call opened at ws' early_again in
      (
        (run_closed b.failure_threshold b.consecutive_failures b history (omega (arith, room)) refl
            refl s below).0,
        opened,
        same,
        ap (λ b'. (call b' early_call).called) (sym same) ∙ not_called,
        ap (λ b'. (call b' early_call).result) (sym same) ∙ error,
        early tripped later early_call opened at early_again,
        subst (λ b'. IsRecovery b' late_call) (sym same)
            (recovers tripped later late_call opened (omega (arith, threshold, count))
              (omega (arith, count, room)) at (omega (arith, l, timeout))),
      )
