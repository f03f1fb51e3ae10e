-- ===== src/Server/Accept/Limit.antt =====
-- src/ipc_http_server.rs, `serve`: how many connections there are at a time.
use kode_bridge.Base.{subst, ℕ, suc, ◌+◌, ◌≤◌, ◌<◌, ◌≡◌, refl, length, u64, arith}
use kode_bridge.Errors.{ok, err}
use kode_bridge.Pool.{Permits}
use kode_bridge.Pool.Accounting.{length-take_out}
use kode_bridge.Server.Connection.{
  SharedStats, Ending, waiting, ended, count_request, count_response, count_error, count_ending,
}
use kode_bridge.Server.Accept.{
  Phase, accepting, Server, new_server, release_permit, spawn, turn_away, finish, crash, with_stats,
  Step, acquires, accepts, turns_away, finishes, crashes, counts_request, counts_response,
  counts_error, stops, stops_accepting, Reach, start, next,
}

-- A bound on how many are inside: one more may come in below it, and one that is inside may leave.
pub data Move (bound : ℕ) : ℕ → ℕ → Type 0 where
  stay : (n : ℕ) → Move bound n n
  enter : (n : ℕ) → n < bound → Move bound n (suc n)
  leave : (n : ℕ) → Move bound (suc n) n

abbrev pub in_hand : Phase → ℕ
in_hand accepting = 1
in_hand _ = 0

module _ (p : Permits) (bound : ℕ) where
  open p use {available, available-release, try_acquire-some, available-new}

  -- Each permit is free, in the hand of the accept loop, or with the task of a live connection; and
  -- the active connections are the live ones and those whose task panicked.
  pub record IsLimited (s : Server p) : Type 0 where
    pub permits : available s.semaphore + in_hand s.phase + length s.live ≡ bound
    pub active : u64 s.stats.active_connections ≡ u64 (length s.live + s.crashed)

  count_ending-active :
      (ending : Ending) (s : SharedStats)
      → (count_ending ending s).active_connections ≡ s.active_connections
  unfolding count_ending count_error
  count_ending-active waiting s = refl
  count_ending-active (ended (ok v)) s = refl
  count_ending-active (ended (err e)) s = refl

  pub Step-IsLimited : {s t : Server p} → Step p s t → IsLimited s → IsLimited t
  unfolding spawn turn_away finish crash with_stats release_permit count_request count_response
      count_error
  Step-IsLimited (acquires s left w e) i = ground (arith, try_acquire-some s.semaphore left e)
  Step-IsLimited (accepts s a) i = ground arith
  Step-IsLimited (turns_away s a) i = ground (arith, available-release s.semaphore)
  Step-IsLimited (finishes s ending j id rest e) i = ground (
    arith,
    available-release s.semaphore,
    length-take_out j s.live id rest e,
    count_ending-active ending s.stats,
  )
  Step-IsLimited (crashes s j id rest e) i =
      ground (arith, available-release s.semaphore, length-take_out j s.live id rest e)
  Step-IsLimited (counts_request s) i = ground arith
  Step-IsLimited (counts_response s) i = ground arith
  Step-IsLimited (counts_error s) i = ground arith
  Step-IsLimited (stops s w) i = ground arith
  Step-IsLimited (stops_accepting s a) i = ground (arith, available-release s.semaphore)

  pub Reach-IsLimited : {s : Server p} → Reach p bound s → IsLimited s
  Reach-IsLimited start = unfold new_server in ground (arith, available-new bound)
  Reach-IsLimited (next r st) = Step-IsLimited st (Reach-IsLimited r)

  left_one : {m : ℕ} (n : ℕ) → m ≡ n + 1 → Move bound m n
  left_one {m} n e = subst (λ k. Move bound k n) (omega arith) (leave n)

  Step-Move :
      {s t : Server p} → IsLimited s → Step p s t → Move bound (length s.live) (length t.live)
  unfolding spawn turn_away finish crash with_stats release_permit
  Step-Move i (acquires s left w e) = stay (length s.live)
  Step-Move i (accepts s a) = enter (length s.live) (ground arith)
  Step-Move i (turns_away s a) = stay (length s.live)
  Step-Move i (finishes s ending j id rest e) =
      left_one (length rest) (length-take_out j s.live id rest e)
  Step-Move i (crashes s j id rest e) = left_one (length rest) (length-take_out j s.live id rest e)
  Step-Move i (counts_request s) = stay (length s.live)
  Step-Move i (counts_response s) = stay (length s.live)
  Step-Move i (counts_error s) = stay (length s.live)
  Step-Move i (stops s w) = stay (length s.live)
  Step-Move i (stops_accepting s a) = stay (length s.live)

  -- In every history of a new server, the connections that have a task are a crowd under the bound
  -- `max_connections`: each step of the server is a step of the crowd, and it is within its bound.
  pub serve_refines_bound :
      {s t : Server p}
      → Reach p bound s
      → Step p s t
      → (length s.live ≤ bound) × Move bound (length s.live) (length t.live)
  serve_refines_bound r st = let i = Reach-IsLimited r in (omega (arith, i.permits), Step-Move i st)
