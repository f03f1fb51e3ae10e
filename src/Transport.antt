-- ===== src/Transport.antt =====
-- src/transport/mod.rs: endpoints and the options of a listener, and what the calls of the operating
-- system answer. The fields of both platforms stand in one record of options.
pub mod Unix
pub mod Windows
mod Tests
use kode_bridge.Base.{ℕ, String, Bool, true, false, Option, none, some, ◌≡◌, refl, ◌⊎◌, inl, inr}
use kode_bridge.Bytes.{Bytes}
use kode_bridge.Errors.{KodeBridgeError, configuration, Result, ok, err}

-- The kinds of `std::io::ErrorKind` that the transport makes or tells apart.
pub data ErrorKind : Type 0 where
  addr_in_use connection_refused invalid_input unsupported permission_denied other : ErrorKind

unfoldable pub is_addr_in_use : ErrorKind → Bool
is_addr_in_use addr_in_use = true
is_addr_in_use _ = false

unfoldable pub is_connection_refused : ErrorKind → Bool
is_connection_refused connection_refused = true
is_connection_refused _ = false

-- `std::io::Error`: its kind and its text.
pub record IoError : Type 0 where
  pub kind : ErrorKind
  pub message : String

-- `std::io::Result`.
pub data IoResult {ℓ} (A : Type ℓ) : Type ℓ where
  done : A → IoResult A
  fails : IoError → IoResult A

infixl 5 ◌>>=◌
abbrev pub ◌>>=◌ {ℓ κ} : {A : Type ℓ} {B : Type κ} → IoResult A → (A → IoResult B) → IoResult B
done a >>= f = f a
fails e >>= f = fails e

pub IoResult-cases {ℓ} :
    {A : Type ℓ} (r : IoResult A) → ((v : A) × (r ≡ done v)) ⊎ ((e : IoError) × (r ≡ fails e))
IoResult-cases (done v) = inl (v, refl)
IoResult-cases (fails e) = inr (e, refl)

abbrev pub io_error {ℓ} : {A : Type ℓ} → ErrorKind → String → IoResult A
io_error kind message = fails (record { kind = kind; message = message })

pub record Endpoint : Type 0 where
  pub path : Bytes

-- `Endpoint::new`, with the check of the platform.
unfoldable new_endpoint : (Bytes → IoResult (Unit {0})) → Bytes → Result Endpoint
new_endpoint validate_endpoint path = elim (validate_endpoint path) [
  | done v ↦ ok (record { path = path })
  | fails e ↦ err (configuration e.message)
]

pub record ListenerOptions : Type 0 where
  pub reclaim_name : Bool
  pub try_overwrite : Bool
  pub max_spin_time : Option ℕ
  pub mode : Option ℕ
  pub security_descriptor : Option ℕ

unfoldable pub default_options : ListenerOptions
default_options = record {
  reclaim_name = true;
  try_overwrite = false;
  max_spin_time = none;
  mode = none;
  security_descriptor = none;
}

unfoldable pub reclaim_name : Bool → ListenerOptions → ListenerOptions
reclaim_name flag options = record options { reclaim_name = flag }

unfoldable pub try_overwrite : Bool → ListenerOptions → ListenerOptions
try_overwrite flag options = record options { try_overwrite = flag }

unfoldable pub max_spin_time : ℕ → ListenerOptions → ListenerOptions
max_spin_time limit options = record options { max_spin_time = some limit }

unfoldable pub mode : ℕ → ListenerOptions → ListenerOptions
mode bits options = record options { mode = some bits }
