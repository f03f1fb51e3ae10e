-- ===== src/Transport/Windows.antt =====
-- src/transport/windows.rs: the paths of named pipes. `Trust` is how a client connects and checks the
-- process of the server, `Instances` the listener, and `Stream` a stream on a pipe.
pub mod Stream
pub mod Endpoint
pub mod Trust
pub mod Instances
use kode_bridge.Base.{
  ℕ, zero, suc, ◌+◌, ◌≡◌, Bool, true, false, not, ◌&&◌, ◌||◌, Option, none, some, List, [], ◌∷◌,
  leb, ltb, ◌==◌, if◌then◌else◌, length, take, drop,
}
use kode_bridge.Bytes.{Bytes}
use kode_bridge.Transport.{
  ErrorKind, unsupported, permission_denied, other, IoError, IoResult, done, fails, io_error,
  ListenerOptions,
}
use kode_bridge.Transport.Unix.{has_nul}

-- `iter().position(|byte| *byte == b)`
unfoldable pub position : ℕ → Bytes → Option ℕ
position b [] = none
position b (c ∷ cs) =
    let rest = position b cs in
    if c == b then some 0 else elim rest [ none ↦ none | some n ↦ some (suc n) ]

-- `bytes.get(2..)`
unfoldable pub get_from_2 : Bytes → Option Bytes
get_from_2 (a ∷ b ∷ cs) = some cs
get_from_2 _ = none

unfoldable pub eq_bytes : Bytes → Bytes → Bool
eq_bytes [] [] = true
eq_bytes (x ∷ xs) (y ∷ ys) = x == y && eq_bytes xs ys
eq_bytes _ _ = false

-- `bytes.get(start..start + n) == Some(expected)`
unfoldable pub slice_is : Bytes → ℕ → ℕ → Bytes → Bool
slice_is bs start n expected =
    leb (start + n) (length bs) && eq_bytes (take n (drop start bs)) expected

unfoldable pub starts_with_backslashes : Bytes → Bool
starts_with_backslashes (a ∷ b ∷ cs) = a == 92 && b == 92
starts_with_backslashes _ = false

-- `\pipe\`
abbrev pub pipe_part : Bytes
pipe_part = 92 ∷ b'p' ∷ b'i' ∷ b'p' ∷ b'e' ∷ 92 ∷ []

-- The checks after the end of the host was found. A unit of the wide encoding is 0 where a byte is.
unfoldable pub validate_pipe : Bytes → ℕ → IoResult (Unit {0})
validate_pipe path host_end =
    let pipe_prefix = 2 + host_end in
    if not (starts_with_backslashes path)
      || (not (slice_is path pipe_prefix 6 pipe_part)
          || (leb (length path) (pipe_prefix + 6) || has_nul path))
    then io_error unsupported "not a named pipe path"
    else done tt

unfoldable pub host_end : Option Bytes → Option ℕ
host_end none = none
host_end (some rest) = position 92 rest

unfoldable pub validate_endpoint : Bytes → IoResult (Unit {0})
validate_endpoint path = elim (host_end (get_from_2 path)) [
  | none ↦ io_error unsupported "not a named pipe path"
  | some n ↦ validate_pipe path n
]
