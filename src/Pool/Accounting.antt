-- ===== src/Pool/Accounting.antt =====
-- src/pool.rs: no interleaving of callers loses a permit or hands out one twice.
use kode_bridge.Base.{
  ℕ, ◌^◌, zero, suc, ◌+◌, ◌-◌, ◌≤◌, ◌<◌, ◌≡◌, refl, ap, ◌⊎◌, inl, inr, none, some, List, [], ◌∷◌,
  length, length-append, Option-cases, Bool-cases, arith, ◌==◌,
}
use kode_bridge.Errors.{Result, ok, err}
use kode_bridge.Pool.{
  Permits, PoolConfig, IdleConnection, PooledConnection, Pool, Event, tries, acquires, abandons,
  continues, connects, preheats, borrows, marks, invalidates, drops, takes_stream, closes,
  drop_expired, take_out, update_at, borrow_stream, mark_reusable, invalidate, new_pool,
  release_many, get_pooled_connection, check_out, try_pooled, acquire, drop_permit, acquired,
  connected, preheated, return_connection, close, into_stream, holding, hand_back, step, run, stats,
}

length-drop_expired :
    (config : PoolConfig) (now : ℕ) (xs : List IdleConnection)
    → length (drop_expired config now xs) ≤ length xs
unfolding drop_expired
length-drop_expired config now [] = omega arith
length-drop_expired config now (x ∷ xs) = ground (arith, length-drop_expired config now xs)

module _ {ℓ} {A : Type ℓ} where
  pub length-take_out :
      (i : ℕ) (xs : List A) (x : A) (rest : List A)
      → take_out i xs ≡ some (x, rest)
      → length xs ≡ length rest + 1
  unfolding take_out
  length-take_out i [] x rest e = cc
  length-take_out zero (y ∷ ys) x rest e = ground arith
  length-take_out (suc i) (y ∷ ys) x rest e = elim (Option-cases (take_out i ys)) [
    | inl n ↦ ground arith
    | inr ((z, zs), s) ↦ ground (arith, length-take_out i ys z zs s)
  ]

  length-update_at : (i : ℕ) (f : A → A) (xs : List A) → length (update_at i f xs) ≡ length xs
  unfolding update_at
  length-update_at i f [] = refl
  length-update_at zero f (x ∷ xs) = refl
  length-update_at (suc i) f (x ∷ xs) = ap suc (length-update_at i f xs)

module _ (p : Permits) where
  open p use {available, release, available-release, available-new, try_acquire-some, try_acquire}

  -- Every permit is free, with a caller between two awaits, with an idle connection or with a
  -- checked-out one; and the counter of active connections counts the latter.
  pub record IsAccounted (size : ℕ) (pool : Pool p) : Type 0 where
    pub permits :
        available pool.semaphore + pool.acquiring + length pool.connections + length pool.leased
        ≡ size
    pub sized : pool.config.max_size ≡ size
    pub active : pool.active_connections ≡ length pool.leased

  available-release_many :
      (n : ℕ) (s : p.Semaphore) → available (release_many p n s) ≡ available s + n
  unfolding release_many
  available-release_many zero s = omega arith
  available-release_many (suc n) s =
      omega (arith, available-release (release_many p n s), available-release_many n s)

  -- What `get_pooled_connection` can come to: all idle connections dropped, or some dropped and the
  -- next one handed out.
  abbrev Emptied : Pool p → Pool p
  Emptied pool = record pool {
    connections = [];
    semaphore = release_many p (length pool.connections) pool.semaphore;
  }

  abbrev Shortened : Pool p → ℕ → List IdleConnection → Pool p
  Shortened pool n rest = record pool {
    connections = rest;
    semaphore = release_many p n pool.semaphore;
  }

  pooled_cases :
      (pool : Pool p) (now : ℕ)
      → (get_pooled_connection p pool now ≡ (Emptied pool, none))
        ⊎ ((idle : IdleConnection) × (rest : List IdleConnection) × (n : ℕ) × (n + length rest + 1
              ≡ length pool.connections)
            × (get_pooled_connection p pool now ≡ (Shortened pool n rest, some idle.stream)))
  unfolding get_pooled_connection
  pooled_cases pool now = go (drop_expired pool.config now pool.connections) refl
    where
      go :
          (kept : List IdleConnection)
          → drop_expired pool.config now pool.connections ≡ kept
          → (get_pooled_connection p pool now ≡ (Emptied pool, none))
            ⊎ ((idle : IdleConnection) × (rest : List IdleConnection) × (n : ℕ) × (n
                    + length rest
                    + 1
                  ≡ length pool.connections)
                × (get_pooled_connection p pool now ≡ (Shortened pool n rest, some idle.stream)))
      go [] e = inl (ground (arith, e))
      go (idle ∷ rest) e = inr (
        idle,
        rest,
        length pool.connections - length (idle ∷ rest),
        omega (arith, ap length e, length-drop_expired pool.config now pool.connections),
        ground (arith, e),
      )

  module _ (size : ℕ) (small : size < 2 ^ 64) where
    try_pooled-IsAccounted :
        (pool : Pool p) (now : ℕ) → IsAccounted size pool → IsAccounted size (try_pooled p pool now)
    unfolding try_pooled check_out
    try_pooled-IsAccounted pool now h = elim (pooled_cases pool now) [
      | inl e ↦
          rw (e, try_pooled)
            (ground (arith, available-release_many (length pool.connections) pool.semaphore))
      | inr (idle, rest, n, k, e) ↦
          rw (e, try_pooled) (ground (arith, available-release_many n pool.semaphore))
    ]

    acquired-IsAccounted :
        (pool : Pool p) (now : ℕ)
        → 0 < pool.acquiring
        → IsAccounted size pool
        → IsAccounted size (acquired p pool now)
    unfolding acquired check_out drop_permit
    acquired-IsAccounted pool now a h = elim (pooled_cases pool now) [
      | inl e ↦
          rw (e, acquired)
            (ground (arith, available-release_many (length pool.connections) pool.semaphore))
      | inr (idle, rest, n, k, e) ↦
          rw (e, acquired)
            (ground (
              arith,
              available-release_many n pool.semaphore,
              available-release (release_many p n pool.semaphore),
            ))
    ]

    acquire-IsAccounted :
        (pool : Pool p) → IsAccounted size pool → IsAccounted size (acquire p pool)
    unfolding acquire
    acquire-IsAccounted pool h = elim (Option-cases (try_acquire pool.semaphore)) [
      | inl e ↦ rw (e, acquire) h
      | inr (s, e) ↦ rw (e, acquire) (ground (arith, try_acquire-some pool.semaphore s e))
    ]

    connected-IsAccounted :
        (pool : Pool p) (answer : Result ℕ) (now : ℕ)
        → 0 < pool.acquiring
        → IsAccounted size pool
        → IsAccounted size (connected p pool answer now)
    unfolding connected check_out drop_permit
    connected-IsAccounted pool (ok s) now a h = ground arith
    connected-IsAccounted pool (err e) now a h = ground (arith, available-release pool.semaphore)

    preheated-IsAccounted :
        (pool : Pool p) (answer : Result ℕ) (now : ℕ)
        → 0 < pool.acquiring
        → IsAccounted size pool
        → IsAccounted size (preheated p pool answer now)
    unfolding preheated drop_permit
    preheated-IsAccounted pool (ok s) now a h =
        ground (arith, length-append pool.connections (record { stream = s; last_used = now } ∷ []))
    preheated-IsAccounted pool (err e) now a h = ground (arith, available-release pool.semaphore)

    holding-IsAccounted :
        (pool next : Pool p)
        → IsAccounted size pool
        → (0 < pool.acquiring → IsAccounted size next)
        → IsAccounted size (holding p pool next)
    unfolding holding
    holding-IsAccounted pool next h k = elim (Bool-cases (pool.acquiring == 0)) [
      | inl e ↦ rw e h
      | inr e ↦ rw e (k (ground arith))
    ]

    return_connection-IsAccounted :
        (pool : Pool p) (c : PooledConnection) (rest : List PooledConnection) (now : ℕ)
        → IsAccounted size pool
        → length pool.leased ≡ length rest + 1
        → IsAccounted size (return_connection p (record pool { leased = rest }) c now)
    unfolding return_connection
    return_connection-IsAccounted pool c rest now h e = ground (
      arith,
      length-append pool.connections (record { stream = c.inner; last_used = now } ∷ []),
      available-release pool.semaphore,
    )

    into_stream-IsAccounted :
        (pool : Pool p) (rest : List PooledConnection)
        → IsAccounted size pool
        → length pool.leased ≡ length rest + 1
        → IsAccounted size (into_stream p (record pool { leased = rest }))
    unfolding into_stream
    into_stream-IsAccounted pool rest h e = ground (arith, available-release pool.semaphore)

    hand_back-IsAccounted :
        (pool : Pool p) (i : ℕ) (after : Pool p → PooledConnection → Pool p)
        → IsAccounted size pool
        → ((c : PooledConnection) (rest : List PooledConnection)
            → length pool.leased ≡ length rest + 1
            → IsAccounted size (after (record pool { leased = rest }) c))
        → IsAccounted size (hand_back p pool (take_out i pool.leased) after)
    unfolding hand_back
    hand_back-IsAccounted pool i after h k = elim (Option-cases (take_out i pool.leased)) [
      | inl e ↦ rw (e, hand_back) h
      | inr ((c, rest), e) ↦ rw (e, hand_back) (k c rest (length-take_out i pool.leased c rest e))
    ]

    update-IsAccounted :
        (pool : Pool p) (i : ℕ) (f : PooledConnection → PooledConnection)
        → IsAccounted size pool
        → IsAccounted size (record pool { leased = update_at i f pool.leased })
    update-IsAccounted pool i f h = ground (arith, length-update_at i f pool.leased)

    close-IsAccounted : (pool : Pool p) → IsAccounted size pool → IsAccounted size (close p pool)
    unfolding close
    close-IsAccounted pool h =
        ground (arith, available-release_many (length pool.connections) pool.semaphore)

    -- Every step of every caller keeps the permits and the counter of active connections in account.
    pub step-IsAccounted :
        (pool : Pool p) (e : Event) → IsAccounted size pool → IsAccounted size (step p pool e)
    unfolding step
    step-IsAccounted pool (tries now) h = try_pooled-IsAccounted pool now h
    step-IsAccounted pool acquires h = acquire-IsAccounted pool h
    step-IsAccounted pool abandons h =
        holding-IsAccounted pool (drop_permit p pool) h
          (λ a. unfold drop_permit in ground (arith, available-release pool.semaphore))
    step-IsAccounted pool (continues now) h =
        holding-IsAccounted pool _ h (λ a. acquired-IsAccounted pool now a h)
    step-IsAccounted pool (connects answer now) h =
        holding-IsAccounted pool _ h (λ a. connected-IsAccounted pool answer now a h)
    step-IsAccounted pool (preheats answer now) h =
        holding-IsAccounted pool _ h (λ a. preheated-IsAccounted pool answer now a h)
    step-IsAccounted pool (borrows i now) h = update-IsAccounted pool i (borrow_stream now) h
    step-IsAccounted pool (marks i) h = update-IsAccounted pool i mark_reusable h
    step-IsAccounted pool (invalidates i) h = update-IsAccounted pool i invalidate h
    step-IsAccounted pool (drops i now) h =
        hand_back-IsAccounted pool i _ h
          (λ c rest e. return_connection-IsAccounted pool c rest now h e)
    step-IsAccounted pool (takes_stream i) h =
        hand_back-IsAccounted pool i _ h (λ c rest e. into_stream-IsAccounted pool rest h e)
    step-IsAccounted pool closes h = close-IsAccounted pool h

    run-IsAccounted :
        (pool : Pool p) (es : List Event) → IsAccounted size pool → IsAccounted size (run p pool es)
    unfolding run
    run-IsAccounted pool [] h = h
    run-IsAccounted pool (e ∷ es) h = run-IsAccounted (step p pool e) es (step-IsAccounted pool e h)

  new_pool-IsAccounted : (config : PoolConfig) → IsAccounted config.max_size (new_pool p config)
  unfolding new_pool
  new_pool-IsAccounted config = record {
    permits = omega (arith, available-new config.max_size);
    sized = refl;
    active = refl;
  }

  -- After any history of a new pool its statistics stay within its size: the connections that it
  -- has and the permits that it has left are together at most `max_size`.
  stats-le-max_size :
      (config : PoolConfig) (es : List Event)
      → config.max_size < 2 ^ 64
      → let s = stats p (run p (new_pool p config) es) in
        (s.total_connections + s.available_permits ≤ s.max_size)
        × (s.active_connections ≤ s.total_connections)
        × (s.max_size ≡ config.max_size)
  unfolding stats
  stats-le-max_size config es small =
      let h =
        run-IsAccounted config.max_size small (new_pool p config) es
          (new_pool-IsAccounted config) in
      (omega (arith, h.permits, h.sized), omega arith, h.sized)
