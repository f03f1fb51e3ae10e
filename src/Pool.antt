-- ===== src/Pool.antt =====
-- src/pool.rs: the connection pool under any interleaving of its callers.
-- `tokio::sync::Semaphore` is a parameter (`Permits`). A stream is a number. What an `async` method
-- does between two awaits is one function here, and `step` runs one of them: a caller of
-- `get_connection` first tries the idle queue (`try_pooled`), then waits for a permit (`acquire`),
-- tries the queue again (`acquired`), then connects (`connected`). `acquiring` counts the permits
-- held by callers that are between two awaits. The checked-out connections are in `leased`.
-- Instants and durations are numbers of nanoseconds.
pub mod Accounting
pub mod Freshness
pub mod Order
pub mod Lease
pub mod Connect
pub mod Counter
mod Tests
use kode_bridge.Base.{
  ℕ, fetch_inc, fetch_dec, zero, suc, ◌+◌, ◌-◌, ◌*◌, ◌≤◌, ◌≡◌, min, Bool, true, false, Option, none,
  some, List, [], ◌∷◌, ◌++◌, length, ltb, leb, ◌==◌, if◌then◌else◌,
}
use kode_bridge.Errors.{KodeBridgeError, Result, ok, err, connection}

-- A counting semaphore, by the number of permits that it has left.
pub record Permits : Type 1 where
  pub Semaphore : Type 0
  pub new : ℕ → Semaphore
  pub available : Semaphore → ℕ
  pub try_acquire : Semaphore → Option Semaphore
  pub release : Semaphore → Semaphore
  pub available-new : (n : ℕ) → available (new n) ≡ n
  pub try_acquire-none : (s : Semaphore) → try_acquire s ≡ none → available s ≡ 0
  pub try_acquire-some : (s t : Semaphore) → try_acquire s ≡ some t → available s ≡ available t + 1
  pub available-release : (s : Semaphore) → available (release s) ≡ available s + 1

-- The fields of `PoolConfig` that the pool reads, in nanoseconds where they are times.
pub record PoolConfig : Type 0 where
  pub max_size : ℕ
  pub max_idle_time : ℕ
  pub connection_timeout : ℕ
  pub retry_delay : ℕ
  pub max_retries : ℕ

pub record IdleConnection : Type 0 where
  pub stream : ℕ
  pub last_used : ℕ

-- A checked-out `PooledConnection`, which holds its permit until it is dropped or taken apart.
pub record PooledConnection : Type 0 where
  pub inner : ℕ
  pub created_at : ℕ
  pub last_used : ℕ
  pub reusable : Bool

pub record Pool (p : Permits) : Type 0 where
  pub config : PoolConfig
  pub connections : List IdleConnection
  pub semaphore : p.Semaphore
  pub active_connections : ℕ
  pub acquiring : ℕ
  pub leased : List PooledConnection

unfoldable pub new_connection : ℕ → ℕ → PooledConnection
new_connection stream now = record {
  inner = stream;
  created_at = now;
  last_used = now;
  reusable = true;
}

-- `PooledConnection::stream`, `mark_reusable`, `invalidate` and `is_valid`.
unfoldable pub borrow_stream : ℕ → PooledConnection → PooledConnection
borrow_stream now c = record c { last_used = now; reusable = false }

unfoldable pub mark_reusable : PooledConnection → PooledConnection
mark_reusable c = record c { reusable = true }

unfoldable pub invalidate : PooledConnection → PooledConnection
invalidate c = record c { reusable = false }

unfoldable pub is_valid : PoolConfig → ℕ → PooledConnection → Bool
is_valid config now c = ltb (now - c.last_used) config.max_idle_time

pub data Event : Type 0 where
  tries : ℕ → Event
  acquires abandons : Event
  continues : ℕ → Event
  connects preheats : Result ℕ → ℕ → Event
  borrows : ℕ → ℕ → Event
  marks invalidates : ℕ → Event
  drops : ℕ → ℕ → Event
  takes_stream : ℕ → Event
  closes : Event

pub record PoolStats : Type 0 where
  pub total_connections : ℕ
  pub available_permits : ℕ
  pub max_size : ℕ
  pub active_connections : ℕ

-- The loop of `get_pooled_connection`: idle connections that are too old leave at the front.
unfoldable pub is_expired : PoolConfig → ℕ → IdleConnection → Bool
is_expired config now idle = ltb config.max_idle_time (now - idle.last_used)

unfoldable pub drop_expired : PoolConfig → ℕ → List IdleConnection → List IdleConnection
drop_expired config now [] = []
drop_expired config now (idle ∷ rest) =
    let kept = drop_expired config now rest in
    if is_expired config now idle then kept else idle ∷ rest

-- The i-th element of a list, and the list without it.
unfoldable pub take_out {ℓ} : {A : Type ℓ} → ℕ → List A → Option (A × List A)
take_out i [] = none
take_out zero (x ∷ xs) = some (x, xs)
take_out (suc i) (x ∷ xs) = elim (take_out i xs) [ none ↦ none | some (y, ys) ↦ some (y, x ∷ ys) ]

unfoldable pub update_at {ℓ} : {A : Type ℓ} → ℕ → (A → A) → List A → List A
update_at i f [] = []
update_at zero f (x ∷ xs) = f x ∷ xs
update_at (suc i) f (x ∷ xs) = x ∷ update_at i f xs

module _ (p : Permits) where
  open p use {Semaphore, new, available, try_acquire, release}

  unfoldable pub new_pool : PoolConfig → Pool p
  new_pool config = record {
    config = config;
    connections = [];
    semaphore = new config.max_size;
    active_connections = 0;
    acquiring = 0;
    leased = [];
  }

  -- A dropped idle connection gives its permit back.
  unfoldable pub release_many : ℕ → Semaphore → Semaphore
  release_many zero s = s
  release_many (suc n) s = release (release_many n s)

  -- The pool after the expired connections have left, and the connection at the front.
  unfoldable pub get_pooled_connection : Pool p → ℕ → Pool p × Option ℕ
  get_pooled_connection pool now =
      let kept = drop_expired pool.config now pool.connections in
      let dropped = length pool.connections - length kept in
      let cleaned = record pool { semaphore = release_many dropped pool.semaphore } in
      elim kept [
        | [] ↦ (record cleaned { connections = [] }, none)
        | idle ∷ rest ↦ (record cleaned { connections = rest }, some idle.stream)
      ]

  unfoldable pub check_out : Pool p → ℕ → ℕ → Pool p
  check_out pool stream now = record pool {
    active_connections = fetch_inc pool.active_connections;
    leased = new_connection stream now ∷ pool.leased;
  }

  -- `get_connection` up to its first await.
  unfoldable pub try_pooled : Pool p → ℕ → Pool p
  try_pooled pool now =
      let (pool', found) = get_pooled_connection pool now in
      elim found [ none ↦ pool' | some stream ↦ check_out pool' stream now ]

  -- A waiting caller is given a permit, if there is one; otherwise it goes on waiting.
  unfoldable pub acquire : Pool p → Pool p
  acquire pool = elim (try_acquire pool.semaphore) [
    | none ↦ pool
    | some s ↦ record pool { semaphore = s; acquiring = pool.acquiring + 1 }
  ]

  -- The permit of a caller that is between two awaits is dropped.
  unfoldable pub drop_permit : Pool p → Pool p
  drop_permit pool = record pool {
    semaphore = release pool.semaphore;
    acquiring = pool.acquiring - 1;
  }

  -- `get_connection` from its permit to its next await: a pooled connection brings its own permit.
  unfoldable pub acquired : Pool p → ℕ → Pool p
  acquired pool now =
      let (pool', found) = get_pooled_connection pool now in
      elim found [ none ↦ pool' | some stream ↦ check_out (drop_permit pool') stream now ]

  -- `get_connection` and `get_fresh_connection` after the connection attempts.
  unfoldable pub connected : Pool p → Result ℕ → ℕ → Pool p
  connected pool (ok stream) now =
      check_out (record pool { acquiring = pool.acquiring - 1 }) stream now
  connected pool (err e) now = drop_permit pool

  -- The round of `preheat_fresh_connections` after its connection attempt.
  unfoldable pub preheated : Pool p → Result ℕ → ℕ → Pool p
  preheated pool (ok stream) now = record pool {
    connections = pool.connections ++ record { stream = stream; last_used = now } ∷ [];
    acquiring = pool.acquiring - 1;
  }
  preheated pool (err e) now = drop_permit pool

  unfoldable pub return_connection : Pool p → PooledConnection → ℕ → Pool p
  return_connection pool c now =
      let pool' = record pool { active_connections = fetch_dec pool.active_connections } in
      let dropped = record pool' { semaphore = release pool.semaphore } in
      if c.reusable
      then (if ltb (length pool.connections) pool.config.max_size
          then record pool' {
            connections = pool.connections ++ record { stream = c.inner; last_used = now } ∷ [];
          }
          else dropped)
      else dropped

  unfoldable pub close : Pool p → Pool p
  close pool = record pool {
    connections = [];
    semaphore = release_many (length pool.connections) pool.semaphore;
  }

  unfoldable pub into_stream : Pool p → Pool p
  into_stream pool = record pool {
    active_connections = fetch_dec pool.active_connections;
    semaphore = release pool.semaphore;
  }

  -- Only a caller that holds a permit can go on.
  unfoldable pub holding : Pool p → Pool p → Pool p
  holding pool next = if pool.acquiring == 0 then pool else next

  -- The connection is dropped, or its stream taken; an index past the end changes nothing.
  unfoldable pub hand_back :
      Pool p
      → Option (PooledConnection × List PooledConnection)
      → (Pool p → PooledConnection → Pool p)
      → Pool p
  hand_back pool none after = pool
  hand_back pool (some (c, rest)) after = after (record pool { leased = rest }) c

  unfoldable pub step : Pool p → Event → Pool p
  step pool (tries now) = try_pooled pool now
  step pool acquires = acquire pool
  step pool abandons = holding pool (drop_permit pool)
  step pool (continues now) = holding pool (acquired pool now)
  step pool (connects answer now) = holding pool (connected pool answer now)
  step pool (preheats answer now) = holding pool (preheated pool answer now)
  step pool (borrows i now) = record pool { leased = update_at i (borrow_stream now) pool.leased }
  step pool (marks i) = record pool { leased = update_at i mark_reusable pool.leased }
  step pool (invalidates i) = record pool { leased = update_at i invalidate pool.leased }
  step pool (drops i now) =
      hand_back pool (take_out i pool.leased) (λ rest c. return_connection rest c now)
  step pool (takes_stream i) = hand_back pool (take_out i pool.leased) (λ rest c. into_stream rest)
  step pool closes = close pool

  unfoldable pub run : Pool p → List Event → Pool p
  run pool [] = pool
  run pool (e ∷ es) = run (step pool e) es

  unfoldable pub stats : Pool p → PoolStats
  stats pool = record {
    total_connections = length pool.connections + pool.active_connections;
    available_permits = available pool.semaphore;
    max_size = pool.config.max_size;
    active_connections = pool.active_connections;
  }
