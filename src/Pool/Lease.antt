-- ===== src/Pool/Lease.antt =====
-- src/pool.rs, `PooledConnection`: which connections come back to the idle queue.
use kode_bridge.Base.{
  ℕ, zero, suc, ◌<◌, ◌≡◌, refl, inl, inr, none, some, List, [], ◌∷◌, ◌++◌, length, Option-cases,
  arith,
}
use kode_bridge.Pool.{
  Permits, PooledConnection, Pool, borrows, marks, drops, take_out, update_at, borrow_stream,
  mark_reusable, return_connection, hand_back, step,
}
use kode_bridge.Pool.Accounting.{IsAccounted, length-take_out}

module _ {ℓ} {A : Type ℓ} where
  take_out-update_at :
      (i : ℕ) (f : A → A) (xs : List A) (x : A) (rest : List A)
      → take_out i xs ≡ some (x, rest)
      → take_out i (update_at i f xs) ≡ some (f x, rest)
  unfolding take_out update_at
  take_out-update_at i f [] x rest e = cc
  take_out-update_at zero f (y ∷ ys) x rest e = ground arith
  take_out-update_at (suc i) f (y ∷ ys) x rest e = elim (Option-cases (take_out i ys)) [
    | inl n ↦ ground arith
    | inr ((z, zs), s) ↦ ground (arith, take_out-update_at i f ys z zs s)
  ]

  take_out-update_at-none :
      (i : ℕ) (f : A → A) (xs : List A)
      → take_out i xs ≡ none
      → take_out i (update_at i f xs) ≡ none
  unfolding take_out update_at
  take_out-update_at-none i f [] e = refl
  take_out-update_at-none zero f (y ∷ ys) e = cc
  take_out-update_at-none (suc i) f (y ∷ ys) e = elim (Option-cases (take_out i ys)) [
    | inl n ↦ ground (arith, take_out-update_at-none i f ys n)
    | inr ((z, zs), s) ↦ ground arith
  ]

module _ (p : Permits) (pool : Pool p) (i now later : ℕ) where
  -- A connection that is dropped after its stream was borrowed, without having been marked as
  -- reusable since, does not come back: the idle queue is as it was.
  borrowed_is_not_reused :
      (step p (step p pool (borrows i now)) (drops i later)).connections ≡ pool.connections
  unfolding step hand_back return_connection borrow_stream
  borrowed_is_not_reused = elim (Option-cases (take_out i pool.leased)) [
    | inl e ↦ rw (take_out-update_at-none i (borrow_stream now) pool.leased e, hand_back)
    | inr ((c, rest), e) ↦
        rw (take_out-update_at i (borrow_stream now) pool.leased c rest e, hand_back)
  ]

  -- In a pool whose permits are in account, one that was marked as reusable after the borrowing is
  -- kept when it is dropped: it goes to the end of the idle queue, and to no other place.
  marked_is_reused :
      (c : PooledConnection) (rest : List PooledConnection)
      → IsAccounted p pool.config.max_size pool
      → take_out i pool.leased ≡ some (c, rest)
      → let q = step p (step p (step p pool (borrows i now)) (marks i)) (drops i later) in
        (q.connections ≡ pool.connections ++ record { stream = c.inner; last_used = later } ∷ [])
        × (q.leased ≡ rest)
        × (q.semaphore ≡ pool.semaphore)
  unfolding step hand_back return_connection borrow_stream mark_reusable
  marked_is_reused c rest h e =
      let first = take_out-update_at i (borrow_stream now) pool.leased c rest e in
      let second =
        take_out-update_at i mark_reusable (update_at i (borrow_stream now) pool.leased)
          (borrow_stream now c) rest first in
      let room : length pool.connections < pool.config.max_size =
        omega (arith, h.permits, length-take_out i pool.leased c rest e) in
      rw (second, hand_back) (ground arith)
