-- ===== src/Retry/Decision.antt =====
-- src/retry.rs: the retry decision, against the classification of src/errors.rs.
use kode_bridge.Base.{ℕ, ◌≤◌, ◌≡◌, refl, ◌↔◌, true, arith}
use kode_bridge.Errors.{
  KodeBridgeError, is_retriable, io, connection, timeout, stream_closed, server_error,
  pool_exhausted,
}
use kode_bridge.Retry.{default_should_retry}

-- What the default decision retries, read off the error alone.
pub data ShouldRetry : KodeBridgeError → ℕ → Type 0 where
  transient : {e : KodeBridgeError} {n : ℕ} → is_retriable e ≡ true → ShouldRetry e n
  server_side : {status n : ℕ} → 500 ≤ status → ShouldRetry (server_error status) n
  exhausted : {n : ℕ} → n ≤ 5 → ShouldRetry pool_exhausted n

forth : (e : KodeBridgeError) (n : ℕ) → default_should_retry e n ≡ true → ShouldRetry e n
unfolding default_should_retry is_retriable
forth (server_error status) n h = server_side (ground arith)
forth pool_exhausted n h = exhausted (ground arith)
forth (io _) n h = transient refl
forth (connection _) n h = transient refl
forth (timeout _) n h = transient refl
forth stream_closed n h = transient refl
forth _ n h = cc

back : {e : KodeBridgeError} {n : ℕ} → ShouldRetry e n → default_should_retry e n ≡ true
unfolding default_should_retry is_retriable
back {e} (transient h) = ground arith
back (server_side h) = ground arith
back (exhausted h) = ground arith

-- The default decision retries exactly the errors that are classified as retriable, the HTTP
-- server errors from 500 on, and an exhausted pool in the first five attempts.
pub default_should_retry-ShouldRetry :
    (e : KodeBridgeError) (n : ℕ) → (default_should_retry e n ≡ true) ↔ ShouldRetry e n
default_should_retry-ShouldRetry e n = (forth e n, back)
