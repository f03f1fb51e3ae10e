-- ===== src/Transport/Windows/Trust.antt =====
-- src/transport/windows.rs: how a client opens a pipe, and which servers it trusts. The calls of Windows
-- are parameters; a call that answers 0 or null is `none`, and `last_os_error` is the error then.
pub mod Verified
use kode_bridge.Base.{
  ℕ, zero, suc, ◌+◌, ◌-◌, ◌*◌, ◌≤◌, ◌<◌, ◌≡◌, ◌≢◌, ◌↔◌, ◌⊎◌, refl, sym, ap, subst, inl, inr, ◌∙◌,
  String, Bool, true, false, not, ◌&&◌, ◌||◌, ltb, leb, ◌==◌, List, [], ◌∷◌, ◌++◌, All, length,
  take, drop, drop-length, length-append, Option, none, some, if◌then◌else◌, Bool-cases,
  Option-cases, arith, max, min,
}
use kode_bridge.Transport.{
  IoError, IoResult, done, fails, io_error, other, permission_denied, ◌>>=◌, IoResult-cases,
}
use kode_bridge.Transport.Windows.Stream.{Pipe, PipeStream, new_stream}

pub record Win32 : Type 1 where
  pub Client : Type 0
  pub Process : Type 0
  pub Token : Type 0
  pub Sid : Type 0
  pub last_os_error : IoError
  pub server_process_id : Client → Option ℕ
  pub open_process : ℕ → Option Process
  pub open_process_token : Process → Option Token
  pub token_size : Token → ℕ
  pub token_user : Token → ℕ → Option Sid
  pub local_system_sid : Option Sid
  pub equal_sid : Sid → Sid → Bool
  pub pipe : Client → Pipe

pub record WindowsServerVerification : Type 0 where
  pub require_system : Bool
  pub verifier : Option (ℕ → IoResult (Unit {0}))

unfoldable pub new_verification :
    Bool → Option (ℕ → IoResult (Unit {0})) → WindowsServerVerification
new_verification require_system verifier = record {
  require_system = require_system;
  verifier = verifier;
}

module _ (win : Win32) where
  open win use {Client, Process, Token, Sid}

  -- `Err(io::Error::last_os_error())` where a call did not succeed.
  abbrev pub or_last : {A : Type 0} → Option A → IoResult A
  or_last none = fails win.last_os_error
  or_last (some a) = done a

  unfoldable pub pipe_server_process_id : Client → IoResult ℕ
  pipe_server_process_id client = do
    process_id ← or_last (win.server_process_id client)
    if process_id == 0
        then io_error other "Windows named-pipe server returned an invalid process ID"
        else done process_id

  unfoldable pub token_user : Token → IoResult Sid
  token_user token =
      if win.token_size token == 0
      then fails win.last_os_error
      else or_last (win.token_user token (win.token_size token))

  unfoldable pub verify_process_is_local_system : ℕ → IoResult (Unit {0})
  verify_process_is_local_system process_id = do
    process ← or_last (win.open_process process_id)
    token ← or_last (win.open_process_token process)
    user ← token_user token
    system_sid ← or_last win.local_system_sid
    if win.equal_sid user system_sid
        then done tt
        else io_error permission_denied "Windows named-pipe server is not LocalSystem"

  unfoldable pub run_verifier : Option (ℕ → IoResult (Unit {0})) → ℕ → IoResult (Unit {0})
  run_verifier none process_id = done tt
  run_verifier (some verifier) process_id = verifier process_id

  unfoldable pub is_none : {A : Type 0} → Option A → Bool
  is_none none = true
  is_none (some a) = false

  unfoldable pub check_system : Bool → ℕ → IoResult (Unit {0})
  check_system require_system process_id =
      if require_system then verify_process_is_local_system process_id else done tt

  unfoldable pub verify_server : Client → WindowsServerVerification → IoResult (Unit {0})
  verify_server client verification =
      if not verification.require_system && is_none verification.verifier then done tt else do
        process_id ← pipe_server_process_id client
        v ← check_system verification.require_system process_id
        run_verifier verification.verifier process_id

  -- What opening the pipe comes to; `busy` is `ERROR_PIPE_BUSY`.
  pub data Opening : Type 0 where
    opened : Client → Opening
    busy : Opening
    not_opened : IoError → Opening

  -- The result, and the milliseconds that were slept.
  pub record Connected : Type 0 where
    pub result : IoResult PipeStream
    pub slept : ℕ

  unfoldable pub verified : Client → WindowsServerVerification → IoResult PipeStream
  verified client verification = do
    v ← verify_server client verification
    done (new_stream (win.pipe client))

  -- The loop of `connect_with_server_verification`, with the answers to the attempts to come.
  unfoldable pub connect_loop :
      ℕ → (ℕ → Opening) → WindowsServerVerification → ℕ → ℕ → Option Connected
  connect_loop zero attempts verification n slept = none
  connect_loop (suc fuel) attempts verification n slept =
      let rest = connect_loop fuel attempts verification (suc n) (slept + 5) in
      elim (attempts n) [
        | opened client ↦ some (record { result = verified client verification; slept = slept })
        | busy ↦ rest
        | not_opened e ↦ some (record { result = fails e; slept = slept })
      ]

  unfoldable pub connect_with_server_verification :
      ℕ → (ℕ → Opening) → WindowsServerVerification → Option Connected
  connect_with_server_verification fuel attempts verification =
      connect_loop fuel attempts verification 0 0

  unfoldable pub connect : ℕ → (ℕ → Opening) → Option Connected
  connect fuel attempts =
      connect_with_server_verification fuel attempts (new_verification false none)
