-- ===== src/Pool/Tests.antt =====
-- Runs of src/pool.rs at concrete inputs, and the theorems applied there.
use kode_bridge.Base.{ℕ, zero, suc, ◌≡◌, refl, true, List, [], ◌∷◌, All, arith}
use kode_bridge.Errors.{ok}
use kode_bridge.Pool.{
  PoolConfig, Pool, Event, tries, acquires, continues, connects, borrows, marks, drops,
  drop_expired, new_pool, get_pooled_connection, step, run, new_connection, take_out, try_pooled,
  is_expired, release_many, acquire, acquired, connected, holding, check_out, hand_back, update_at,
  borrow_stream, mark_reusable, return_connection,
}
use kode_bridge.Pool.Counter.{counter}
use kode_bridge.Pool.Accounting.{IsAccounted, step-IsAccounted}
use kode_bridge.Pool.Freshness.{Fresh}
use kode_bridge.Pool.Order.{no_stale_connection_is_left}
use kode_bridge.Pool.Connect.{
  Answer, stream, failure, create_loop, create_connection, fresh_failure, get_fresh_connection,
  IsFirstStream, get_fresh_connection-IsFirstStream,
}

abbrev config : PoolConfig
config = record {
  max_size = 2;
  max_idle_time = 100;
  connection_timeout = 50;
  retry_delay = 10;
  max_retries = 2;
}

-- One connection was made, used and returned.
abbrev history : List Event
history =
    tries 1 ∷ acquires ∷ continues 2 ∷ connects (ok 7) 3 ∷ borrows 0 4 ∷ marks 0 ∷ drops 0 5 ∷ []

used : Pool counter
used = record {
  config = config;
  connections = record { stream = 7; last_used = 5 } ∷ [];
  semaphore = 1;
  active_connections = 0;
  acquiring = 0;
  leased = [];
}

busy : Pool counter
busy = record {
  config = config;
  connections = [];
  semaphore = 1;
  active_connections = 1;
  acquiring = 0;
  leased = record { inner = 7; created_at = 3; last_used = 3; reusable = true } ∷ [];
}

history_runs : run counter (new_pool counter config) history ≡ used
unfolding run new_pool used step try_pooled get_pooled_connection drop_expired is_expired
    release_many acquire acquired connected holding check_out hand_back take_out update_at
    borrow_stream mark_reusable return_connection new_connection
history_runs = refl

busy-IsAccounted : IsAccounted counter 2 busy
unfolding busy
busy-IsAccounted = ground arith

step-IsAccounted_example : IsAccounted counter 2 (step counter busy (drops 0 9))
step-IsAccounted_example =
    step-IsAccounted counter 2 (omega arith) busy (drops 0 9) busy-IsAccounted

no_stale_connection_is_left_example :
    let pool = run counter (new_pool counter config) history in
    All (Fresh pool.config 90) (get_pooled_connection counter pool 90).0.connections
no_stale_connection_is_left_example =
    no_stale_connection_is_left counter config history 90 (omega arith)

-- The second attempt succeeds.
abbrev second : ℕ → Answer
second zero = failure "refused"
second (suc n) = stream 7

second_connects : create_connection config second ≡ (ok 7, 10 ∷ [])
unfolding create_connection create_loop
second_connects = refl

get_fresh_connection-IsFirstStream_example :
    IsFirstStream second 0 2 fresh_failure (get_fresh_connection second).0
get_fresh_connection-IsFirstStream_example = get_fresh_connection-IsFirstStream second
