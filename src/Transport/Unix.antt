-- ===== src/Transport/Unix.antt =====
-- src/transport/unix.rs: the listener on a Unix socket, whose path may be taken. The operating system
-- is a parameter: each call answers and leaves a world, in which other processes may have acted. A
-- command also keeps the calls that it made, the last one first.
pub mod Careful
pub mod Binding
pub mod Alone
pub mod Lifetime
use kode_bridge.Base.{
  ℕ, zero, suc, ◌-◌, Bool, true, false, not, ◌&&◌, ◌||◌, Option, none, some, List, [], ◌∷◌, leb,
  ◌==◌, if◌then◌else◌,
}
use kode_bridge.Bytes.{Bytes}
use kode_bridge.Transport.{
  ErrorKind, addr_in_use, invalid_input, is_addr_in_use, is_connection_refused, IoError, IoResult,
  done, fails, io_error, ListenerOptions,
}

unfoldable pub has_nul : Bytes → Bool
has_nul [] = false
has_nul (b ∷ bs) = b == 0 || has_nul bs

unfoldable pub validate_endpoint : Bytes → IoResult (Unit {0})
validate_endpoint path =
    if has_nul path
    then io_error invalid_input "filesystem paths cannot contain interior nuls"
    else done tt

-- `std::fs::Metadata`, as far as it is read.
pub record Metadata : Type 0 where
  pub dev : ℕ
  pub ino : ℕ
  pub is_socket : Bool

-- Sockets, the file system and the clock.
pub record System : Type 1 where
  pub World : Type 0
  pub Socket : Type 0
  pub Incoming : Type 0
  pub now : World → ℕ
  pub new_stream : World → IoResult Socket × World
  pub bind : Bytes → Socket → World → IoResult (Unit {0}) × World
  pub symlink_metadata : Bytes → World → IoResult Metadata × World
  pub connect : Bytes → World → IoResult (Unit {0}) × World
  pub remove_file : Bytes → World → IoResult (Unit {0}) × World
  pub set_permissions : Bytes → ℕ → World → IoResult (Unit {0}) × World
  pub listen : Socket → ℕ → World → IoResult Incoming × World

-- A call that was made, with what it answered.
pub data Event : Type 0 where
  opens : Event
  binds : IoResult (Unit {0}) → Event
  inspects : IoResult Metadata → Event
  connects : IoResult (Unit {0}) → Event
  removes : IoResult (Unit {0}) → Event
  permits : ℕ → IoResult (Unit {0}) → Event
  listens : ℕ → Event

unfoldable pub same_file : Metadata → Metadata → Bool
same_file left right = left.dev == right.dev && left.ino == right.ino

pub record SocketPathGuard : Type 0 where
  pub path : Bytes
  pub device : ℕ
  pub inode : ℕ

unfoldable pub new_guard : Bytes → Metadata → SocketPathGuard
new_guard path metadata = record { path = path; device = metadata.dev; inode = metadata.ino }

unfoldable pub path_guard : Bytes → ListenerOptions → Metadata → Option SocketPathGuard
path_guard path options metadata =
    if options.reclaim_name then some (new_guard path metadata) else none

-- `options.max_spin_time.is_some_and(|limit| started.elapsed() >= limit)`
unfoldable pub has_spun : Option ℕ → ℕ → Bool
has_spun none elapsed = false
has_spun (some limit) elapsed = leb limit elapsed

module _ (sys : System) where
  open sys use {World, Socket, Incoming}

  pub record State : Type 0 where
    pub world : World
    pub calls : List Event

  -- What a command comes to; one that runs out of fuel keeps the calls that it made.
  pub data Run (A : Type 0) : Type 0 where
    returns : IoResult A → State → Run A
    out_of_fuel : State → Run A

  abbrev pub Cmd : Type 0 → Type 0
  Cmd A = State → Run A

  module _ {A : Type 0} where
    abbrev pub calls_of : Run A → List Event
    calls_of (returns r s) = s.calls
    calls_of (out_of_fuel s) = s.calls

    -- A call of the system, with the event that it leaves.
    abbrev pub noted : (IoResult A → Event) → IoResult A × World → List Event → Run A
    noted event answer calls =
        returns answer.0 (record { world = answer.1; calls = event answer.0 ∷ calls })

  module _ {A B : Type 0} where
    abbrev pub and_then : Run A → (A → Cmd B) → Run B
    and_then (returns (done a) s) k = k a s
    and_then (returns (fails e) s) k = returns (fails e) s
    and_then (out_of_fuel s) k = out_of_fuel s

    -- `match`, which also sees the error.
    abbrev pub match_on : Run A → (IoResult A → Cmd B) → Run B
    match_on (returns r s) k = k r s
    match_on (out_of_fuel s) k = out_of_fuel s

    infixl 5 ◌>>=◌
    abbrev pub ◌>>=◌ : Cmd A → (A → Cmd B) → Cmd B
    m >>= k = λ s. and_then (m s) k

    infixl 5 ◌>>◌
    abbrev pub ◌>>◌ : Cmd A → Cmd B → Cmd B
    m >> k = m >>= λ _. k

  abbrev pub give : {A : Type 0} → IoResult A → Cmd A
  give r = returns r

  abbrev pub new_stream : Cmd Socket
  new_stream s = noted (λ _. opens) (sys.new_stream s.world) s.calls

  abbrev pub call_bind : Bytes → Socket → Cmd (Unit {0})
  call_bind path socket s = noted binds (sys.bind path socket s.world) s.calls

  abbrev pub symlink_metadata : Bytes → Cmd Metadata
  symlink_metadata path s = noted inspects (sys.symlink_metadata path s.world) s.calls

  abbrev pub connect : Bytes → Cmd (Unit {0})
  connect path s = noted connects (sys.connect path s.world) s.calls

  abbrev pub remove_file : Bytes → Cmd (Unit {0})
  remove_file path s = noted removes (sys.remove_file path s.world) s.calls

  abbrev pub set_permissions : Bytes → ℕ → Cmd (Unit {0})
  set_permissions path bits s = noted (permits bits) (sys.set_permissions path bits s.world) s.calls

  abbrev pub listen : Socket → ℕ → Cmd Incoming
  listen socket backlog s = noted (λ _. listens backlog) (sys.listen socket backlog s.world) s.calls

  unfoldable pub socket_metadata : Bytes → Cmd Metadata
  socket_metadata path = do
    metadata ← symlink_metadata path
    if not metadata.is_socket
        then give (io_error addr_in_use "Unix socket path no longer refers to a socket")
        else give (done metadata)

  -- The rest of `reclaim_stale_socket` after a connection that was refused.
  unfoldable pub remove_unchanged : Bytes → Metadata → Cmd (Unit {0})
  remove_unchanged path before = do
    after ← symlink_metadata path
    if not (same_file before after) || not after.is_socket
        then give (io_error addr_in_use "endpoint changed while checking stale socket")
        else remove_file path

  unfoldable pub on_connected : Bytes → Metadata → IoResult (Unit {0}) → Cmd (Unit {0})
  on_connected path before (done live) =
      give (io_error addr_in_use "refusing to replace a live Unix listener")
  on_connected path before (fails e) =
      if is_connection_refused e.kind then remove_unchanged path before else give (fails e)

  unfoldable pub reclaim_stale_socket : Bytes → Cmd (Unit {0})
  reclaim_stale_socket path = do
    before ← symlink_metadata path
    if not before.is_socket
        then give (io_error addr_in_use "refusing to replace a non-socket endpoint")
        else λ s. match_on (connect path s) (on_connected path before)

  -- What the loop of `bind_socket` does after `socket.bind(path)`; `again` is the rest of the loop.
  unfoldable pub on_bound :
      Bytes → ListenerOptions → ℕ → Bool → Socket → Cmd Socket → IoResult (Unit {0}) → Cmd Socket
  on_bound path options started attempted_reclaim socket again (done v) = give (done socket)
  on_bound path options started attempted_reclaim socket again (fails e) = λ s.
      let spun = attempted_reclaim && has_spun options.max_spin_time (sys.now s.world - started) in
      (if is_addr_in_use e.kind && options.try_overwrite
          then if spun then give (fails e) else (reclaim_stale_socket path >> again)
          else give (fails e))
        s

  -- The loop of `bind_socket`, which began at `started`.
  unfoldable pub bind_loop : ℕ → Bytes → ListenerOptions → ℕ → Bool → Cmd Socket
  bind_loop zero path options started attempted_reclaim = out_of_fuel
  bind_loop (suc fuel) path options started attempted_reclaim =
      let again = bind_loop fuel path options started true in
      do
        socket ← new_stream
        λ s.
            match_on (call_bind path socket s)
              (on_bound path options started attempted_reclaim socket again)

  unfoldable pub bind_socket : ℕ → Bytes → ListenerOptions → Cmd Socket
  bind_socket fuel path options s = bind_loop fuel path options (sys.now s.world) false s

  pub record Listener : Type 0 where
    pub path_guard : Option SocketPathGuard
    pub inner : Incoming

  abbrev pub set_mode : Bytes → Option ℕ → Cmd (Unit {0})
  set_mode path none = give (done tt)
  set_mode path (some bits) = set_permissions path bits

  -- What the drop of a guard does with the metadata that it reads.
  unfoldable pub remove_own : SocketPathGuard → IoResult Metadata → Cmd (Unit {0})
  remove_own guard (fails e) = give (done tt)
  remove_own guard (done metadata) =
      if metadata.is_socket && (metadata.dev == guard.device && metadata.ino == guard.inode)
      then (λ s. match_on (remove_file guard.path s) (λ _. give (done tt)))
      else give (done tt)

  -- `Drop for SocketPathGuard`, which has no result.
  unfoldable pub drop_guard : SocketPathGuard → Cmd (Unit {0})
  drop_guard guard s = match_on (symlink_metadata guard.path s) (remove_own guard)

  -- `Drop for Listener`, which drops its guard.
  unfoldable pub drop_path_guard : Option SocketPathGuard → Cmd (Unit {0})
  drop_path_guard none = give (done tt)
  drop_path_guard (some guard) = drop_guard guard

  -- What `Listener::bind` does once the guard is there.
  unfoldable pub start_listening : Bytes → ListenerOptions → Socket → Metadata → Cmd Incoming
  start_listening path options socket metadata = do
    set_mode path options.mode
    current ← socket_metadata path
    if not (same_file metadata current)
        then give (io_error addr_in_use "Unix socket path changed before listen")
        else listen socket 1024

  -- An early return of `Listener::bind` drops the guard.
  unfoldable pub with_guard : Option SocketPathGuard → IoResult Incoming → Cmd Listener
  with_guard guard (done inner) s = returns (done (record { path_guard = guard; inner = inner })) s
  with_guard guard (fails e) s = match_on (drop_path_guard guard s) (λ _. returns (fails e))

  unfoldable pub bind : ℕ → Bytes → ListenerOptions → Cmd Listener
  bind fuel path options = do
    socket ← bind_socket fuel path options
    metadata ← socket_metadata path
    λ s.
        match_on (start_listening path options socket metadata s)
          (with_guard (path_guard path options metadata))

  -- A listener from its binding to its drop.
  unfoldable pub bind_and_drop : ℕ → Bytes → ListenerOptions → Cmd (Unit {0})
  bind_and_drop fuel path options = do
    listener ← bind fuel path options
    drop_path_guard listener.path_guard
