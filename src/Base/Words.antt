-- ===== src/Base/Words.antt =====
-- 64-bit unsigned integers, as `usize`, `u64` and the atomics use them: they wrap.
use Prim.Native.Nat.{ℕ, ◌+◌, ◌-◌, ◌%◌, ◌^◌}

abbrev pub u64 : ℕ → ℕ
u64 n = n % 2 ^ 64

-- `fetch_add(1)` and `fetch_sub(1)`
abbrev pub fetch_inc : ℕ → ℕ
fetch_inc n = (n + 1) % 2 ^ 64

abbrev pub fetch_dec : ℕ → ℕ
fetch_dec n = (n + 2 ^ 64 - 1) % 2 ^ 64
