-- ===== src/Transport/Tests.antt =====
-- src/transport: a file system with one path and a maker of pipes, and runs on them.
use kode_bridge.Base.{
  ℕ, zero, suc, ◌≡◌, ◌↔◌, ◌⊎◌, refl, true, false, ◌==◌, List, [], ◌∷◌, ◌++◌, length, Option, none,
  some, if◌then◌else◌, arith,
}
use kode_bridge.Bytes.{Bytes, bytes}
use kode_bridge.Transport.{
  addr_in_use, connection_refused, other, IoResult, done, io_error, ListenerOptions,
  default_options,
}
use kode_bridge.Transport.Unix.{System, State, bind, bind_and_drop, calls_of}
use kode_bridge.Transport.Unix.Careful.{IsCareful, nothing}
use kode_bridge.Transport.Unix.Binding.{bind_and_drop-IsCareful}
use kode_bridge.Transport.Unix.Alone.{Node, node, file, IsAlone, may_bind}
use kode_bridge.Transport.Unix.Lifetime.{Answers, bind_alone}
use kode_bridge.Transport.Unix.{has_nul}
use kode_bridge.Transport.{unsupported}
use kode_bridge.Transport.Windows.{
  validate_endpoint, validate_pipe, host_end, get_from_2, position, starts_with_backslashes,
  slice_is, eq_bytes,
}
use kode_bridge.Transport.Windows.Endpoint.{IsPipePath, validate_endpoint-IsPipePath}
use kode_bridge.Transport.Windows.Stream.{
  Pipe, PipeStream, new_stream, ready, joined, running, Operation, writes, flushes, run, step,
  poll_write, poll_flush, after_flush, on_write, poll_pending_flush, on_joining, flush_dirty,
  after_begin, begin_flush, full, enqueue_linger, drop_stream,
}
use kode_bridge.Transport.Windows.Stream.Flushed.{Promises, stream_loses_nothing}
use kode_bridge.Transport.Windows.Trust.{
  Win32, Opening, opened, busy, new_verification, connect_with_server_verification,
}
use kode_bridge.Transport.Windows.Trust.Verified.{IsTrusted, IsBusyUntil, connect-IsTrusted}
use kode_bridge.Transport.Windows.Instances
use kode_bridge.Transport.Windows.Instances.{Pipes, Listener, create_instance, listener_on, serve}
use kode_bridge.Transport.Windows.Instances.Waiting.{IsMaking, IsWaiting, bind_and_serve-IsWaiting}

-- What stands at the path, with the number of the next file.
record Disk : Type 0 where
  slot : Option Node
  next : ℕ

abbrev slot_of : Disk → Option Node
slot_of w = w.slot

abbrev absent : {A : Type 0} → IoResult A
absent = io_error other "No such file or directory"

abbrev at : {A : Type 0} → (Node → IoResult A × Option Node) → Disk → IoResult A × Disk
at f w = elim w.slot [ none ↦ (absent, w) | some n ↦ ((f n).0, record w { slot = (f n).1 }) ]

-- A file system that no other process uses.
abbrev posix : System
posix = record {
  World = Disk;
  Socket = ℕ;
  Incoming = ℕ;
  now = λ w. 0;
  new_stream = λ w. (done 7, w);
  bind = λ path socket w. elim w.slot [
    | none ↦ (done tt, record { slot = some (node (file 1 w.next true) false); next = suc w.next })
    | some n ↦
        (io_error addr_in_use "Address already in use", record { slot = some n; next = w.next })
  ];
  symlink_metadata = λ path. at (λ n. (done n.file, some n));
  connect = λ path.
      at (λ n.
        (if n.live then done tt else io_error connection_refused "Connection refused", some n));
  remove_file = λ path. at (λ n. (done tt, none));
  set_permissions = λ path bits. at (λ n. (done tt, some n));
  listen = λ socket backlog. at (λ n. (done socket, some (node n.file true)));
}

abbrev start : Option Node → State posix
start slot = record { world = record { slot = slot; next = 5 }; calls = [] }

posix-IsAlone : (path : Bytes) → IsAlone posix path slot_of
posix-IsAlone path = record {
  new_stream = λ w. (7, w, refl, refl);
  bind-free = λ socket w e. (
    1,
    w.next,
    record { slot = some (node (file 1 w.next true) false); next = suc w.next },
    rw (e),
    refl,
  );
  bind-taken = λ socket w n e.
      ("Address already in use", record { slot = some n; next = w.next }, rw (e), refl);
  inspect = λ w n e. (record { slot = some n; next = w.next }, rw (e), refl);
  connect-live = λ w n e l. (record { slot = some n; next = w.next }, rw (e, l), refl);
  connect-stale =
      λ w n e l. ("Connection refused", record { slot = some n; next = w.next }, rw (e, l), refl);
  remove = λ w n e. (record { slot = none; next = w.next }, rw (e), refl);
  set_permissions = λ bits w n e. (record { slot = some n; next = w.next }, rw (e), refl);
  listen = λ socket backlog w n e.
      (socket, record { slot = some (node n.file true); next = w.next }, rw (e), refl);
}

abbrev path : Bytes
path = bytes "/run/app.sock"

-- A socket whose process has gone.
abbrev stale : Option Node
stale = some (node (file 1 4 true) false)

abbrev replacing : ListenerOptions
replacing = record default_options { try_overwrite = true }

bind_and_drop-IsCareful_example :
    IsCareful (calls_of posix (bind_and_drop posix 2 path replacing (start stale)))
bind_and_drop-IsCareful_example =
    bind_and_drop-IsCareful posix path replacing 2 (start stale) nothing

bind_alone_example :
    Answers posix path slot_of
      (posix-IsAlone path)
      (may_bind replacing stale)
      replacing
      stale
      (bind posix 2 path replacing (start stale))
bind_alone_example =
    bind_alone posix path slot_of (posix-IsAlone path) 0 replacing (start stale) stale refl

validate_endpoint-IsPipePath_example :
    (validate_endpoint (bytes "\\\\.\\pipe\\app") ≡ done tt) ↔ IsPipePath (bytes "\\\\.\\pipe\\app")
validate_endpoint-IsPipePath_example = validate_endpoint-IsPipePath (bytes "\\\\.\\pipe\\app")

pipe_path_is_valid : validate_endpoint (bytes "\\\\.\\pipe\\app") ≡ done tt
unfolding validate_endpoint validate_pipe host_end get_from_2 position starts_with_backslashes
    slice_is eq_bytes has_nul
pipe_path_is_valid = refl

unix_path_is_no_pipe : validate_endpoint path ≡ io_error unsupported "not a named pipe path"
unfolding validate_endpoint validate_pipe host_end get_from_2 position
unix_path_is_no_pipe = refl

abbrev empty_pipe : Pipe
empty_pipe = record { written = 0; flushed = 0 }

-- Five bytes are written; a flush begins and is still running.
abbrev writes_and_flushes : List Operation
writes_and_flushes = writes running (ready (done 5)) ∷ flushes running (done tt) running ∷ []

stream_loses_nothing_example :
    let s = run writes_and_flushes (new_stream empty_pipe) in
    Promises (poll_flush (joined (done tt)) (done tt) running s)
    × ((drop_stream (done tt) full true s ≡ some (enqueue_linger (done tt) full true))
        ⊎ (s.inner.flushed ≡ s.inner.written))
stream_loses_nothing_example =
    stream_loses_nothing empty_pipe writes_and_flushes (joined (done tt)) running (done tt) full
      true refl

flushed_five :
    (poll_flush
      (joined (done tt))
      (done tt)
      running
      (run writes_and_flushes (new_stream empty_pipe))).1.inner
    ≡ record { written = 5; flushed = 5 }
unfolding poll_flush run step poll_write after_flush on_write poll_pending_flush on_joining
    flush_dirty after_begin begin_flush new_stream
flushed_five = refl

-- A server in process 4, whose user is the local system, number 18.
abbrev windows : Win32
windows = record {
  Client = ℕ;
  Process = ℕ;
  Token = ℕ;
  Sid = ℕ;
  last_os_error = record { kind = other; message = "Access is denied" };
  server_process_id = λ c. some c;
  open_process = λ id. some id;
  open_process_token = λ p. some p;
  token_size = λ t. 44;
  token_user = λ t size. some (if t == 4 then 18 else 19);
  local_system_sid = some 18;
  equal_sid = λ a b. a == b;
  pipe = λ c. empty_pipe;
}

abbrev busy_once : ℕ → Opening windows
busy_once zero = busy
busy_once (suc n) = opened 4

busy_once-IsBusyUntil : IsBusyUntil windows busy_once 1
busy_once-IsBusyUntil zero l = refl
busy_once-IsBusyUntil (suc k) l = absurd (omega arith)

connect-IsTrusted_example :
    (answer : IoResult PipeStream) × (connect_with_server_verification windows 2 busy_once
        (new_verification true none)
      ≡ some (record { result = answer; slept = 5 }))
    × ((answer ≡ done (new_stream empty_pipe)) ↔ IsTrusted windows 4 (new_verification true none))
connect-IsTrusted_example =
    connect-IsTrusted windows 2 busy_once true none 1 4 busy_once-IsBusyUntil refl (omega arith)

-- Pipes whose world is the instances that were made, by number.
abbrev pipes : Pipes
pipes = record {
  World = List ℕ;
  Instance = ℕ;
  create = λ options path w. (done (length w), w ++ length w ∷ []);
  connect = λ i w. (done tt, w);
}

pipes-IsMaking : IsMaking pipes (λ w. w)
pipes-IsMaking = record {
  makes = λ options path w v i e. cc;
  makes_none = λ options path w v e f. cc;
  waits = λ i w. refl;
}

abbrev listener : Listener pipes
listener = record { path = path; options = replacing; pending = some 0 }

bind_and_serve-IsWaiting_example :
    IsWaiting pipes
      (λ w. w)
      pipes-IsMaking
      (serve pipes 3 (record { accepted = []; listener = listener; world = 0 ∷ [] }))
bind_and_serve-IsWaiting_example =
    bind_and_serve-IsWaiting pipes (λ w. w) pipes-IsMaking path replacing [] (0 ∷ []) listener 3
      refl (unfold Instances.bind create_instance listener_on in refl)
