-- ===== src/Server/Accept.antt =====
-- src/ipc_http_server.rs, `serve`: the accept loop and the tasks that it spawns, in any order. The
-- semaphore is that of the pool's model. A task that panics drops what it owns, its permit with it,
-- and runs none of its code after that.
pub mod Limit
use kode_bridge.Base.{
  ℕ, zero, suc, ◌+◌, ◌≡◌, Option, none, some, List, [], ◌∷◌, fetch_inc, fetch_dec,
}
use kode_bridge.Pool.{Permits, take_out}
use kode_bridge.Codec.{Http}
use kode_bridge.Server.Connection.{
  SharedStats, new_stats, count_request, count_response, count_error, Ending, count_ending,
}

-- The accept loop waits for a permit, waits for a client with a permit in its hand, or has stopped.
pub data Phase : Type 0 where
  acquiring accepting stopped : Phase

module _ (p : Permits) where
  -- The connections that have a task, by their ids; `crashed` counts the tasks that panicked.
  pub record Server : Type 0 where
    pub semaphore : p.Semaphore
    pub phase : Phase
    pub live : List ℕ
    pub crashed : ℕ
    pub stats : SharedStats

  unfoldable pub new_server : ℕ → Server
  unfolding new_stats
  new_server max_connections = record {
    semaphore = p.new max_connections;
    phase = acquiring;
    live = [];
    crashed = 0;
    stats = new_stats;
  }

  unfoldable pub release_permit : Server → Server
  release_permit s = record s { semaphore = p.release s.semaphore }

  -- `connection_id` is `fetch_add(1) + 1`. The task gets the permit.
  unfoldable pub spawn : Server → Server
  spawn s = record s {
    phase = acquiring;
    live = (s.stats.total_connections + 1) ∷ s.live;
    stats = record s.stats {
      total_connections = fetch_inc s.stats.total_connections;
      active_connections = fetch_inc s.stats.active_connections;
    };
  }

  -- A client without credentials, or a failed `accept`.
  unfoldable pub turn_away : Server → Server
  unfolding release_permit
  turn_away s = record (release_permit s) { phase = acquiring }

  -- A task that has run to its end.
  unfoldable pub finish : Ending → List ℕ → Server → Server
  unfolding release_permit
  finish ending rest s =
      let counted = count_ending ending s.stats in
      record (release_permit s) {
        live = rest;
        stats = record counted { active_connections = fetch_dec counted.active_connections };
      }

  unfoldable pub crash : List ℕ → Server → Server
  unfolding release_permit
  crash rest s = record (release_permit s) { live = rest; crashed = s.crashed + 1 }

  -- What a task counts while it runs.
  unfoldable pub with_stats : (SharedStats → SharedStats) → Server → Server
  with_stats f s = record s { stats = f s.stats }

  pub data Step : Server → Server → Type 0 where
    acquires :
        (s : Server) (left : p.Semaphore)
        → s.phase ≡ acquiring
        → p.try_acquire s.semaphore ≡ some left
        → Step s (record s { semaphore = left; phase = accepting })
    accepts : (s : Server) → s.phase ≡ accepting → Step s (spawn s)
    turns_away : (s : Server) → s.phase ≡ accepting → Step s (turn_away s)
    finishes :
        (s : Server) (ending : Ending) (i id : ℕ) (rest : List ℕ)
        → take_out i s.live ≡ some (id, rest)
        → Step s (finish ending rest s)
    crashes :
        (s : Server) (i id : ℕ) (rest : List ℕ)
        → take_out i s.live ≡ some (id, rest)
        → Step s (crash rest s)
    counts_request : (s : Server) → Step s (with_stats count_request s)
    counts_response : (s : Server) → Step s (with_stats count_response s)
    counts_error : (s : Server) → Step s (with_stats count_error s)
    stops : (s : Server) → s.phase ≡ acquiring → Step s (record s { phase = stopped })
    stops_accepting :
        (s : Server) → s.phase ≡ accepting → Step s (record (release_permit s) { phase = stopped })

  pub data Reach (max_connections : ℕ) : Server → Type 0 where
    start : Reach max_connections (new_server max_connections)
    next : {s t : Server} → Reach max_connections s → Step s t → Reach max_connections t
