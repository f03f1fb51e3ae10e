-- ===== src/Pool/Counter.antt =====
-- A semaphore that is its number of permits: what the pool asks of `tokio::sync::Semaphore` can hold.
use kode_bridge.Base.{ℕ, zero, suc, ◌+◌, ◌≡◌, refl, Option, none, some, arith}
use kode_bridge.Pool.{Permits}

abbrev pub take_one : ℕ → Option ℕ
take_one zero = none
take_one (suc n) = some n

pub take_one-none : (s : ℕ) → take_one s ≡ none → s ≡ 0
take_one-none zero e = refl
take_one-none (suc n) e = cc

pub take_one-some : (s t : ℕ) → take_one s ≡ some t → s ≡ t + 1
take_one-some zero t e = cc
take_one-some (suc n) t e = ground arith

abbrev pub counter : Permits
counter = record {
  Semaphore = ℕ;
  new = λ n. n;
  available = λ s. s;
  try_acquire = take_one;
  release = suc;
  available-new = λ n. refl;
  try_acquire-none = take_one-none;
  try_acquire-some = take_one-some;
  available-release = λ s. omega arith;
}
