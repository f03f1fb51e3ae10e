-- ===== src/Pool/Freshness.antt =====
-- src/pool.rs, `get_pooled_connection`: which idle connection is handed out, and which are dropped.
use kode_bridge.Base.{
  ℕ, ◌-◌, ◌≤◌, ◌<◌, ◌≡◌, refl, sym, ap, ◌∙◌, ◌⊎◌, inl, inr, true, false, none, some, List, [], ◌∷◌,
  ◌++◌, All, arith,
}
use mathlib.Core.Path.{subst}
use mathlib.Core.List.{append-nil}
use kode_bridge.Pool.{
  Permits, PoolConfig, IdleConnection, Pool, is_expired, drop_expired, get_pooled_connection,
}

module _ (config : PoolConfig) (now : ℕ) where
  abbrev pub Expired : IdleConnection → Type 0
  Expired idle = config.max_idle_time < now - idle.last_used

  abbrev pub Fresh : IdleConnection → Type 0
  Fresh idle = now - idle.last_used ≤ config.max_idle_time

  pub is_expired-cases :
      (x : IdleConnection)
      → ((is_expired config now x ≡ true) × Expired x)
        ⊎ ((is_expired config now x ≡ false) × Fresh x)
  unfolding is_expired
  is_expired-cases x = ground arith

  -- The queue is an expired part, which is dropped, and a part that is empty or begins fresh.
  abbrev Begins : List IdleConnection → Type 0
  Begins [] = Unit {0}
  Begins (x ∷ xs) = Fresh x

  drop_expired-split :
      (xs : List IdleConnection)
      → (old : List IdleConnection) × (xs ≡ old ++ drop_expired config now xs)
        × All Expired old
        × Begins (drop_expired config now xs)
  unfolding drop_expired
  drop_expired-split [] = ([], refl, tt, tt)
  drop_expired-split (x ∷ xs) = elim (is_expired-cases x) [
    | inl (e, h) ↦
        let (old, split, olds, begins) = drop_expired-split xs in
        rw e (x ∷ old, ap (◌∷◌ x) split, (h, olds), begins)
    | inr (e, h) ↦ rw e ([], refl, tt, h)
  ]

-- The connection that `get_pooled_connection` hands out is the first of the queue that is not
-- expired; those before it are dropped, and those behind it stay.
abbrev pub HandsOutOldest : (p : Permits) → Pool p → ℕ → Type 0
HandsOutOldest p pool now =
    let (pool', found) = get_pooled_connection p pool now in
    ((found ≡ none) × (pool'.connections ≡ []) × All (Expired pool.config now) pool.connections)
    ⊎ ((old : List IdleConnection) × (idle : IdleConnection) × (pool.connections
          ≡ old ++ idle ∷ pool'.connections)
        × All (Expired pool.config now) old
        × Fresh pool.config now idle
        × (found ≡ some idle.stream))

module _ (p : Permits) (pool : Pool p) (now : ℕ) where
  -- The connection that is handed out is the oldest one that is not expired, all before it in the
  -- queue are expired and are dropped, and those behind it stay in order; none is handed out only
  -- if all are expired.
  pub get_pooled_connection_oldest : HandsOutOldest p pool now
  unfolding get_pooled_connection
  get_pooled_connection_oldest =
      let (old, split, olds, begins) = drop_expired-split pool.config now pool.connections in
      go old (drop_expired pool.config now pool.connections) refl split olds begins
    where
      go :
          (old kept : List IdleConnection)
          → drop_expired pool.config now pool.connections ≡ kept
          → pool.connections ≡ old ++ kept
          → All (Expired pool.config now) old
          → Begins pool.config now kept
          → HandsOutOldest p pool now
      go old [] e split olds begins = inl (
        ground (arith, e),
        ground (arith, e),
        subst (All (Expired pool.config now)) (sym (split ∙ append-nil old)) olds,
      )
      go old (idle ∷ rest) e split olds begins =
          let left : (get_pooled_connection p pool now).0.connections ≡ rest = ground (arith, e) in
          inr (old, idle, rw left split, olds, begins, ground (arith, e))
