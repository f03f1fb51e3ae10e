-- ===== src/Errors.antt =====
-- src/errors.rs: the error type of the whole library, its constructors and its classification.
-- An error of another crate (io, serde_json, httparse, http, utf8) is held by its display text.
use kode_bridge.Base.{ℕ, String, Bool, true, false, ◌≡◌, refl, ◌⊎◌, inl, inr}

pub data KodeBridgeError : Type 0 where
  io json http_parse http invalid_status_code utf8 from_utf8 : String → KodeBridgeError
  connection : String → KodeBridgeError
  timeout : ℕ → KodeBridgeError
  protocol configuration invalid_request : String → KodeBridgeError
  server_error client_error : ℕ → KodeBridgeError
  stream_closed : KodeBridgeError
  json_serialize : String → KodeBridgeError
  pool_exhausted : KodeBridgeError
  custom : String → KodeBridgeError

pub data Result {ℓ} (A : Type ℓ) : Type ℓ where
  ok : A → Result A
  err : KodeBridgeError → Result A

pub Result-cases {ℓ} :
    {A : Type ℓ} (r : Result A) → ((v : A) × (r ≡ ok v)) ⊎ ((e : KodeBridgeError) × (r ≡ err e))
Result-cases (ok v) = inl (v, refl)
Result-cases (err e) = inr (e, refl)

infixl 5 ◌>>=◌
abbrev pub ◌>>=◌ {ℓ κ} : {A : Type ℓ} {B : Type κ} → Result A → (A → Result B) → Result B
ok a >>= f = f a
err e >>= f = err e

-- `timeout_msg` drops its message.
abbrev pub timeout_msg : String → KodeBridgeError
timeout_msg message = timeout 30000

abbrev pub json_parse : String → KodeBridgeError
json_parse message = json_serialize message

abbrev pub validation : String → KodeBridgeError
validation message = configuration message

unfoldable pub is_retriable : KodeBridgeError → Bool
is_retriable (io _) = true
is_retriable (connection _) = true
is_retriable (timeout _) = true
is_retriable stream_closed = true
is_retriable _ = false

unfoldable pub is_client_error : KodeBridgeError → Bool
is_client_error (client_error _) = true
is_client_error (invalid_request _) = true
is_client_error _ = false

unfoldable pub is_server_error : KodeBridgeError → Bool
is_server_error (server_error _) = true
is_server_error _ = false
