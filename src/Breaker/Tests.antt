-- ===== src/Breaker/Tests.antt =====
-- Runs of the circuit breaker of src/retry.rs at concrete inputs, and the theorems applied there.
use kode_bridge.Base.{ℕ, ◌≡◌, refl, false, some, [], ◌∷◌, arith}
use kode_bridge.Errors.{Result, ok, err, connection, custom}
use kode_bridge.Breaker.{CircuitBreaker, closed, open_circuit, new, execute}
use kode_bridge.Breaker.Invariant.{IsConsistent, new-IsConsistent, execute-IsConsistent}
use kode_bridge.Breaker.Trip.{Call, call, run, IsRecovery, trips_and_recovers}

abbrev failure : Result ℕ
failure = err (connection "refused")

abbrev failing : ℕ → Call ℕ
failing t = record { operation = failure; now = t; later = t }

abbrev working : ℕ → Call ℕ
working t = record { operation = ok 42; now = t; later = t }

fresh : CircuitBreaker
unfolding new
fresh = new 2 100

tripped : CircuitBreaker
tripped = record {
  failure_threshold = 2;
  recovery_timeout = 100;
  consecutive_failures = 2;
  last_failure_time = some 8;
  state = open_circuit;
}

-- The two failures of the source's own test.
fresh_trips : run fresh (failing 5 ∷ failing 8 ∷ []) ≡ tripped
unfolding run call execute fresh tripped
fresh_trips = refl

execute-IsConsistent_example : IsConsistent (execute fresh failure 5 6).breaker
unfolding fresh
execute-IsConsistent_example =
    execute-IsConsistent fresh failure 5 6 (omega arith) (omega arith)
      (new-IsConsistent 2 100 (omega arith))

trips_and_recovers_example :
    let after = (execute (run fresh (failing 5 ∷ [])) failure 8 8).breaker in
    ((run fresh (failing 5 ∷ [])).state ≡ closed)
    × (after.state ≡ open_circuit)
    × (run after (working 50 ∷ []) ≡ after)
    × ((call after (working 60)).called ≡ false)
    × ((call after (working 60)).result ≡ err (custom "Circuit breaker is open"))
    × ((call after (working 60)).breaker ≡ after)
    × IsRecovery (run after (working 50 ∷ [])) (working 200)
unfolding fresh
trips_and_recovers_example =
    trips_and_recovers fresh (failing 5 ∷ []) (connection "refused") 8 8 (working 50 ∷ [])
      (working 60) (working 200) (omega arith) refl (omega arith, tt) refl (omega arith, tt)
      (omega arith) (omega arith)
