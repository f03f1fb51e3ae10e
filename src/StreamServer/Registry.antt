-- ===== src/StreamServer/Registry.antt =====
-- src/ipc_stream_server.rs, `serve_with_source`: the accept loop, the tasks of the clients and the
-- registry of clients, in any order. The semaphore is that of the pool's model. A task that panics
-- gives its permit back and runs none of its code after that.
pub mod Entries
use kode_bridge.Base.{
  ℕ, zero, suc, ◌+◌, ◌-◌, ◌≡◌, Option, none, some, List, [], ◌∷◌, ◌==◌, if◌then◌else◌, u64,
  fetch_inc,
}
use kode_bridge.Errors.{Result}
use kode_bridge.Metrics.Trackers.{Floats}
use kode_bridge.Pool.{Permits, take_out}
use kode_bridge.StreamServer.Messages.{StreamMessage}
use kode_bridge.StreamServer.Source.{StreamServerStats, new_stats, count_source_error, source_round}
use kode_bridge.StreamServer.Delivery.{StreamClient, new_client, count_message, count_errors}

-- The map of clients, in its order of iteration.
abbrev pub Clients : Type 0
Clients = List (ℕ × StreamClient)

unfoldable pub remove : ℕ → Clients → Clients
remove id [] = []
remove id (entry ∷ entries) =
    let rest = remove id entries in if entry.0 == id then rest else entry ∷ rest

unfoldable pub insert : ℕ → StreamClient → Clients → Clients
insert id client clients = (id, client) ∷ remove id clients

-- A change behind `get_mut`, which finds nothing for a client that is not there.
unfoldable pub update_client : ℕ → (StreamClient → StreamClient) → Clients → Clients
update_client id f [] = []
update_client id f (entry ∷ entries) =
    let rest = update_client id f entries in
    if entry.0 == id then (entry.0, f entry.1) ∷ entries else entry ∷ rest

-- `IpcStreamServer::clients`.
unfoldable clients_of : Clients → List StreamClient
clients_of [] = []
clients_of (entry ∷ entries) = entry.1 ∷ clients_of entries

-- The accept loop waits for a permit, waits for a client with a permit in its hand, or has stopped.
pub data Phase : Type 0 where
  acquiring accepting stopped : Phase

module _ (p : Permits) (f : Floats) where
  -- The clients that have a task, by their ids; `crashed` are those whose task panicked.
  pub record Server : Type 0 where
    pub semaphore : p.Semaphore
    pub phase : Phase
    pub client_id_counter : ℕ
    pub clients : Clients
    pub stats : StreamServerStats f
    pub live : List ℕ
    pub crashed : List ℕ

  unfoldable pub new_server : ℕ → ℕ → Server
  new_server max_connections now = record {
    semaphore = p.new max_connections;
    phase = acquiring;
    client_id_counter = 1;
    clients = [];
    stats = new_stats f now;
    live = [];
    crashed = [];
  }

  unfoldable pub count_connection : StreamServerStats f → StreamServerStats f
  count_connection s = record s {
    total_connections = u64 (s.total_connections + 1);
    active_connections = u64 (s.active_connections + 1);
  }

  -- A client that connects; the task gets the permit.
  unfoldable pub spawn : ℕ → Server → Server
  spawn now s = record s {
    phase = acquiring;
    client_id_counter = fetch_inc s.client_id_counter;
    clients = insert s.client_id_counter (new_client now) s.clients;
    stats = count_connection s.stats;
    live = s.client_id_counter ∷ s.live;
  }

  unfoldable pub release_permit : Server → Server
  release_permit s = record s { semaphore = p.release s.semaphore }

  -- A failed `accept`.
  unfoldable pub turn_away : Server → Server
  unfolding release_permit
  turn_away s = record (release_permit s) { phase = acquiring }

  -- A task that has run to its end: its entry goes, then the count, then the permit.
  unfoldable pub finish : ℕ → List ℕ → Server → Server
  unfolding release_permit
  finish id rest s = record (release_permit s) {
    clients = remove id s.clients;
    stats = record s.stats { active_connections = s.stats.active_connections - 1 };
    live = rest;
  }

  unfoldable pub crash : ℕ → List ℕ → Server → Server
  unfolding release_permit
  crash id rest s = record (release_permit s) { live = rest; crashed = id ∷ s.crashed }

  unfoldable pub update : ℕ → (StreamClient → StreamClient) → Server → Server
  update id change s = record s { clients = update_client id change s.clients }

  unfoldable pub count_error : Server → Server
  count_error s = record s { stats = count_source_error f s.stats }

  -- A round of the task of the source.
  unfoldable pub run_source : ℕ → Result (List StreamMessage) → Server → Server
  run_source now messages s = record s { stats = (source_round f now messages s.stats).0 }

  -- A step of the server, with the number of the clients that it lets in.
  pub data Step : ℕ → Server → Server → Type 0 where
    acquires :
        (s : Server) (left : p.Semaphore)
        → s.phase ≡ acquiring
        → p.try_acquire s.semaphore ≡ some left
        → Step 0 s (record s { semaphore = left; phase = accepting })
    accepts : (now : ℕ) (s : Server) → s.phase ≡ accepting → Step 1 s (spawn now s)
    turns_away : (s : Server) → s.phase ≡ accepting → Step 0 s (turn_away s)
    sends : (id now : ℕ) (s : Server) → Step 0 s (update id (count_message now) s)
    misses : (id n : ℕ) (s : Server) → Step 0 s (update id (count_errors n) s)
    counts_error : (s : Server) → Step 0 s (count_error s)
    broadcasts :
        (now : ℕ) (messages : Result (List StreamMessage)) (s : Server)
        → Step 0 s (run_source now messages s)
    finishes :
        (s : Server) (i id : ℕ) (rest : List ℕ)
        → take_out i s.live ≡ some (id, rest)
        → Step 0 s (finish id rest s)
    crashes :
        (s : Server) (i id : ℕ) (rest : List ℕ)
        → take_out i s.live ≡ some (id, rest)
        → Step 0 s (crash id rest s)
    stops : (s : Server) → s.phase ≡ acquiring → Step 0 s (record s { phase = stopped })
    stops_accepting :
        (s : Server)
        → s.phase ≡ accepting
        → Step 0 s (record (release_permit s) { phase = stopped })

  -- What a new server comes to, with the number of the clients that it has let in.
  pub data Reach (max_connections now : ℕ) : ℕ → Server → Type 0 where
    start : Reach max_connections now 0 (new_server max_connections now)
    next :
        {s t : Server} {n k : ℕ}
        → Reach max_connections now n s
        → Step k s t
        → Reach max_connections now (n + k) t
