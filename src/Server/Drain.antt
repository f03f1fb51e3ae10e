-- ===== src/Server/Drain.antt =====
-- src/ipc_http_server.rs, the end of `serve`: the wait for the connections that are still active.
use kode_bridge.Base.{
  ℕ, zero, suc, ◌+◌, ◌*◌, ◌/◌, ◌≤◌, ◌≡◌, ◌⊎◌, refl, inl, inr, ◌&&◌, ltb, Option, none, some,
  if◌then◌else◌, Bool-cases, arith,
}

module _ (active elapsed : ℕ → ℕ) (shutdown_timeout : ℕ) where
  -- The loop at its n-th turn: `active n` and `elapsed n` are what is read there. It gives the turns
  -- and the connections that remain.
  unfoldable pub drain : ℕ → ℕ → Option (ℕ × ℕ)
  drain zero n = none
  drain (suc fuel) n =
      let later = drain fuel (suc n) in
      if ltb 0 (active n) && ltb (elapsed n) shutdown_timeout then later else some (n, active n)

  abbrev pub IsDrained : ℕ → Type 0
  IsDrained n = (active n ≡ 0) ⊎ (shutdown_timeout ≤ elapsed n)

  drain_from :
      (fuel n : ℕ)
      → ((k : ℕ) → k * 100_000_000 ≤ elapsed k)
      → shutdown_timeout ≤ (n + fuel) * 100_000_000
      → (m : ℕ) × (drain (suc fuel) n ≡ some (m, active m)) × IsDrained m × (m ≤ n + fuel)
  unfolding drain
  drain_from zero n tick enough =
      elim (Bool-cases (ltb 0 (active n) && ltb (elapsed n) shutdown_timeout)) [
        | inr e ↦ (n, rw (drain, e) refl, ground (arith, e), omega arith)
        | inl e ↦ absurd (ground (arith, e, tick n, enough))
      ]
  drain_from (suc fuel) n tick enough =
      elim (Bool-cases (ltb 0 (active n) && ltb (elapsed n) shutdown_timeout)) [
        | inr e ↦ (n, rw (drain, e) refl, ground (arith, e), omega arith)
        | inl e ↦
            let (m, q, d, l) = drain_from fuel (suc n) tick (omega (arith, enough)) in
            (m, rw (drain, e) q, d, omega (arith, l))
      ]

  -- If at least 100 ms pass with each turn, the wait ends, after no more turns than fit into the
  -- timeout and one: no connection is active then, or the timeout has passed.
  pub drain-ends :
      ((k : ℕ) → k * 100_000_000 ≤ elapsed k)
      → (m : ℕ) × (drain (suc (shutdown_timeout / 100_000_000 + 1)) 0 ≡ some (m, active m))
        × IsDrained m
        × (m ≤ shutdown_timeout / 100_000_000 + 1)
  drain-ends tick =
      let n = shutdown_timeout / 100_000_000 + 1 in
      let (m, q, d, l) = drain_from n 0 tick (omega arith) in (m, q, d, omega (arith, l))
