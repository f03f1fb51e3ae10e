-- ===== src/Pool/Order.antt =====
-- src/pool.rs: the idle queue stays in order of last use, so that dropping at its front is enough.
use kode_bridge.Base.{
  ℕ, ◌-◌, ◌≤◌, ◌≡◌, inl, inr, Option, none, some, List, [], ◌∷◌, ◌++◌, All, arith,
}
use kode_bridge.Errors.{Result, ok, err}
use kode_bridge.Pool.{
  Permits, PoolConfig, IdleConnection, PooledConnection, Pool, Event, tries, acquires, abandons,
  continues, connects, preheats, borrows, marks, invalidates, drops, takes_stream, closes,
  get_pooled_connection, return_connection, preheated, connected, check_out, drop_permit,
  try_pooled, acquire, acquired, close, into_stream, holding, hand_back, take_out, step, run,
  new_pool,
}
use kode_bridge.Pool.Freshness.{Fresh, get_pooled_connection_oldest}

-- The idle queue is in order of last use, between two instants.
abbrev pub Ordered : ℕ → ℕ → List IdleConnection → Type 0
Ordered lo hi [] = lo ≤ hi
Ordered lo hi (x ∷ xs) = (lo ≤ x.last_used) × Ordered x.last_used hi xs

Ordered-append :
    (lo hi t : ℕ) (xs : List IdleConnection) (stream : ℕ)
    → Ordered lo hi xs
    → hi ≤ t
    → Ordered lo t (xs ++ record { stream = stream; last_used = t } ∷ [])
Ordered-append lo hi t [] stream h k = (omega arith, omega arith)
Ordered-append lo hi t (x ∷ xs) stream h k = (h.0, Ordered-append x.last_used hi t xs stream h.1 k)

Ordered-later :
    (lo hi t : ℕ) (xs : List IdleConnection) → Ordered lo hi xs → hi ≤ t → Ordered lo t xs
Ordered-later lo hi t [] h k = omega arith
Ordered-later lo hi t (x ∷ xs) h k = (h.0, Ordered-later x.last_used hi t xs h.1 k)

Ordered-lower :
    (lo lo' hi : ℕ) (xs : List IdleConnection) → Ordered lo hi xs → lo' ≤ lo → Ordered lo' hi xs
Ordered-lower lo lo' hi [] h k = omega arith
Ordered-lower lo lo' hi (x ∷ xs) h k = (omega (arith, h.0), h.1)

module _ (config : PoolConfig) (now : ℕ) where
  Ordered-Fresh :
      (lo hi : ℕ) (xs : List IdleConnection)
      → Ordered lo hi xs
      → now - lo ≤ config.max_idle_time
      → All (Fresh config now) xs
  Ordered-Fresh lo hi [] h k = tt
  Ordered-Fresh lo hi (x ∷ xs) h k =
      let fresh : Fresh config now x = omega (arith, h.0) in
      (fresh, Ordered-Fresh x.last_used hi xs h.1 fresh)

Ordered-suffix :
    (lo hi : ℕ) (xs ys : List IdleConnection) → Ordered lo hi (xs ++ ys) → Ordered lo hi ys
Ordered-suffix lo hi [] ys h = h
Ordered-suffix lo hi (x ∷ xs) ys h =
    Ordered-lower x.last_used lo hi ys (Ordered-suffix x.last_used hi xs ys h.1) h.0

-- The clock after an event, and events in the order of their clock readings.
abbrev pub clock_after : ℕ → Event → ℕ
clock_after clock (tries now) = now
clock_after clock (continues now) = now
clock_after clock (connects answer now) = now
clock_after clock (preheats answer now) = now
clock_after clock (borrows i now) = now
clock_after clock (drops i now) = now
clock_after clock _ = clock

abbrev pub Timeline : ℕ → List Event → Type 0
Timeline clock [] = Unit {0}
Timeline clock (e ∷ es) = (clock ≤ clock_after clock e) × Timeline (clock_after clock e) es

abbrev pub end_of : ℕ → List Event → ℕ
end_of clock [] = clock
end_of clock (e ∷ es) = end_of (clock_after clock e) es

module _ (p : Permits) where
  pooled-Ordered :
      (pool : Pool p) (now clock : ℕ)
      → Ordered 0 clock pool.connections
      → clock ≤ now
      → Ordered 0 now (get_pooled_connection p pool now).0.connections
  pooled-Ordered pool now clock h k = elim (get_pooled_connection_oldest p pool now) [
    | inl (_, e, _) ↦ rw e (omega arith)
    | inr (old, idle, e, _, _, _) ↦
        let all = Ordered-later 0 clock now _ (rw e at h) k in
        let rest = Ordered-suffix 0 now old _ all in
        Ordered-lower idle.last_used 0 now _ rest.1 rest.0
  ]

  connections-try_pooled :
      (pool : Pool p) (now : ℕ)
      → (try_pooled p pool now).connections ≡ (get_pooled_connection p pool now).0.connections
  unfolding try_pooled check_out
  connections-try_pooled pool now = ground arith

  connections-acquired :
      (pool : Pool p) (now : ℕ)
      → (acquired p pool now).connections ≡ (get_pooled_connection p pool now).0.connections
  unfolding acquired check_out drop_permit
  connections-acquired pool now = ground arith

  holding-Ordered :
      (pool next : Pool p) (clock : ℕ)
      → Ordered 0 clock pool.connections
      → Ordered 0 clock next.connections
      → Ordered 0 clock (holding p pool next).connections
  unfolding holding
  holding-Ordered pool next clock h k = ground arith

  connected-Ordered :
      (pool : Pool p) (answer : Result ℕ) (now : ℕ)
      → Ordered 0 now pool.connections
      → Ordered 0 now (connected p pool answer now).connections
  unfolding connected check_out drop_permit
  connected-Ordered pool (ok s) now h = h
  connected-Ordered pool (err e) now h = h

  preheated-Ordered :
      (pool : Pool p) (answer : Result ℕ) (now clock : ℕ)
      → Ordered 0 clock pool.connections
      → clock ≤ now
      → Ordered 0 now (preheated p pool answer now).connections
  unfolding preheated drop_permit
  preheated-Ordered pool (ok s) now clock h k = Ordered-append 0 clock now pool.connections s h k
  preheated-Ordered pool (err e) now clock h k = Ordered-later 0 clock now pool.connections h k

  drops-Ordered :
      (pool : Pool p) (now clock : ℕ) (o : Option (PooledConnection × List PooledConnection))
      → Ordered 0 clock pool.connections
      → clock ≤ now
      → Ordered 0 now (hand_back p pool o (λ rest c. return_connection p rest c now)).connections
  unfolding hand_back return_connection
  drops-Ordered pool now clock none h k = Ordered-later 0 clock now pool.connections h k
  drops-Ordered pool now clock (some (c, rest)) h k = ground (
    arith,
    Ordered-later 0 clock now pool.connections h k,
    Ordered-append 0 clock now pool.connections c.inner h k,
  )

  step-Ordered :
      (pool : Pool p) (clock : ℕ) (e : Event)
      → Ordered 0 clock pool.connections
      → clock ≤ clock_after clock e
      → Ordered 0 (clock_after clock e) (step p pool e).connections
  unfolding step
  step-Ordered pool clock (tries now) h k =
      rw (connections-try_pooled pool now) (pooled-Ordered pool now clock h k)
  step-Ordered pool clock acquires h k = unfold acquire in ground arith
  step-Ordered pool clock abandons h k = holding-Ordered pool _ clock h (unfold drop_permit in h)
  step-Ordered pool clock (continues now) h k =
      holding-Ordered pool _ now (Ordered-later 0 clock now pool.connections h k)
        (rw (connections-acquired pool now) (pooled-Ordered pool now clock h k))
  step-Ordered pool clock (connects answer now) h k =
      holding-Ordered pool _ now (Ordered-later 0 clock now pool.connections h k)
        (connected-Ordered pool answer now (Ordered-later 0 clock now pool.connections h k))
  step-Ordered pool clock (preheats answer now) h k =
      holding-Ordered pool _ now (Ordered-later 0 clock now pool.connections h k)
        (preheated-Ordered pool answer now clock h k)
  step-Ordered pool clock (borrows i now) h k = Ordered-later 0 clock now pool.connections h k
  step-Ordered pool clock (marks i) h k = h
  step-Ordered pool clock (invalidates i) h k = h
  step-Ordered pool clock (drops i now) h k =
      drops-Ordered pool now clock (take_out i pool.leased) h k
  step-Ordered pool clock (takes_stream i) h k = unfold hand_back into_stream in ground arith
  step-Ordered pool clock closes h k = unfold close in omega arith

  run-Ordered :
      (pool : Pool p) (clock : ℕ) (es : List Event)
      → Ordered 0 clock pool.connections
      → Timeline clock es
      → Ordered 0 (end_of clock es) (run p pool es).connections
  unfolding run
  run-Ordered pool clock [] h t = h
  run-Ordered pool clock (e ∷ es) h t =
      run-Ordered (step p pool e) (clock_after clock e) es (step-Ordered pool clock e h t.0) t.1

  pooled-Fresh :
      (pool : Pool p) (now hi : ℕ)
      → Ordered 0 hi pool.connections
      → All (Fresh pool.config now) (get_pooled_connection p pool now).0.connections
  pooled-Fresh pool now hi h = elim (get_pooled_connection_oldest p pool now) [
    | inl (_, e, _) ↦ rw e tt
    | inr (old, idle, e, _, f, _) ↦
        let rest = Ordered-suffix 0 hi old _ (rw e at h) in
        Ordered-Fresh pool.config now idle.last_used hi _ rest.1 f
  ]

  -- After any history of a new pool whose clock does not go back, `get_pooled_connection` leaves no
  -- connection in the idle queue that has been idle for longer than the limit.
  pub no_stale_connection_is_left :
      (config : PoolConfig) (es : List Event) (now : ℕ)
      → Timeline 0 es
      → let pool = run p (new_pool p config) es in
        All (Fresh pool.config now) (get_pooled_connection p pool now).0.connections
  no_stale_connection_is_left config es now t =
      pooled-Fresh (run p (new_pool p config) es) now (end_of 0 es)
        (run-Ordered (new_pool p config) 0 es (unfold new_pool in omega arith) t)
