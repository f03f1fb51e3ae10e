-- ===== src/Client/Connections.antt =====
-- src/ipc_http_client.rs: the connections of `IpcHttpClient`. The n-th physical attempt is
-- `connect n`; what is slept before an attempt is recorded. `display` prints a number.
use Prim.Native.String.{◌++◌ as append}
use kode_bridge.Base.{
  ℕ, zero, suc, ◌+◌, String, Option, none, some, List, [], ◌∷◌, ◌++◌, true, false, ◌==◌,
  if◌then◌else◌,
}
use kode_bridge.Errors.{Result, ok, err, connection}
use kode_bridge.Pool.{PooledConnection}
use kode_bridge.Pool.Connect.{Answer, stream, failure, describe}
use kode_bridge.Metrics.Collector.{MetricsCollector, connection_created, connection_failed}

-- `Either`: a connection of the pool, or one of its own.
pub data Connection : Type 0 where
  pooled : PooledConnection → Connection
  direct : ℕ → Connection

-- What comes of a future under a timeout.
pub data Timed (A : Type 0) : Type 0 where
  in_time : A → Timed A
  too_late : Timed A

unfoldable pub direct_failure : (ℕ → String) → ℕ → Option String → Result ℕ
unfolding describe
direct_failure display max_retries last = err (
    connection (
      append "Failed to create connection after "
        (append (display max_retries) (append " attempts: " (describe last)))))

-- The loop of `create_direct_connection`: the rounds that are left, the next attempt and the last
-- error. `failed` is what it comes to without a connection.
unfoldable pub direct_loop :
    (ℕ → Answer) → (Option String → Result ℕ) → ℕ → ℕ → ℕ → Option String → Result ℕ × List ℕ
direct_loop connect failed retry_delay zero attempt last = (failed last, [])
direct_loop connect failed retry_delay (suc left) attempt last =
    let slept = if attempt == 0 then [] else retry_delay ∷ [] in
    elim (connect attempt) [
      | stream s ↦ (ok s, slept)
      | failure text ↦
          let (result, rest) =
            direct_loop connect failed retry_delay left (attempt + 1) (some text) in
          (result, slept ++ rest)
    ]

unfoldable pub create_direct_connection : (ℕ → String) → ℕ → ℕ → (ℕ → Answer) → Result ℕ × List ℕ
create_direct_connection display max_retries retry_delay connect =
    direct_loop connect (direct_failure display max_retries) retry_delay max_retries 0 none

-- `get_connection`, with what the pool gives if there is one, and what the direct attempts give.
unfoldable pub get_connection :
    Option (Result PooledConnection)
    → Result ℕ
    → MetricsCollector
    → MetricsCollector × Result Connection
get_connection (some (ok conn)) direct_answer m = (connection_created true m, ok (pooled conn))
get_connection (some (err e)) direct_answer m = (connection_failed m, err e)
get_connection none (ok s) m = (connection_created false m, ok (direct s))
get_connection none (err e) m = (connection_failed m, err e)

-- What the parts of `get_fresh_connection` give: a fresh connection of the pool within 20 ms and any
-- connection of the pool, if there is one, and a physical attempt within 100 ms.
pub record FreshParts : Type 0 where
  pub pool : Option (Timed (Result PooledConnection) × Result PooledConnection)
  pub physical : Timed Answer

unfoldable pub fall_back :
    Option (Timed (Result PooledConnection) × Result PooledConnection) → Result Connection
fall_back none = err (connection "Failed to get fresh connection")
fall_back (some (fresh, err e)) = err e
fall_back (some (fresh, ok conn)) = ok (pooled conn)

unfoldable pub without_pool : FreshParts → Result Connection
without_pool parts = elim parts.physical [
  | in_time a ↦ elim a [ stream s ↦ ok (direct s) | failure text ↦ fall_back parts.pool ]
  | too_late ↦ fall_back parts.pool
]

unfoldable pub get_fresh_connection : FreshParts → Result Connection
get_fresh_connection parts = elim parts.pool [
  | none ↦ without_pool parts
  | some (fresh, any) ↦ elim fresh [
    | in_time r ↦ elim r [ ok conn ↦ ok (pooled conn) | err e ↦ without_pool parts ]
    | too_late ↦ without_pool parts
  ]
]
