-- ===== src/Transport/Windows/Stream.antt =====
-- src/transport/windows.rs, `PipeStream`: writes, flushes in the background, and the drop. The pipe is
-- what was written to it and how much of that a flush waited for; a flush covers what the pipe had
-- when it began. What the polls of tokio and the calls of Windows answer is given with each operation.
pub mod Flushed
use Prim.Native.String.{◌++◌ as append}
use kode_bridge.Base.{
  ℕ, ◌+◌, Bool, true, false, not, ◌||◌, ◌==◌, Option, none, some, if◌then◌else◌, max, List, [], ◌∷◌,
}
use kode_bridge.Transport.{IoError, IoResult, done, fails, io_error, other}

pub data Poll {ℓ} (A : Type ℓ) : Type ℓ where
  ready : IoResult A → Poll A
  pending : Poll A

-- `FlushFileBuffers` waits until the other end has read what was written.
pub record Pipe : Type 0 where
  pub written : ℕ
  pub flushed : ℕ

pub record JoinHandle : Type 0 where
  pub covers : ℕ

-- What polling the task of a flush comes to; it may also have panicked.
pub data Joining : Type 0 where
  joined : IoResult (Unit {0}) → Joining
  panicked : IoError → Joining
  running : Joining

pub record PipeStream : Type 0 where
  pub inner : Pipe
  pub dirty : Bool
  pub flush : Option JoinHandle

unfoldable pub new_stream : Pipe → PipeStream
new_stream inner = record { inner = inner; dirty = false; flush = none }

abbrev pub wait_for : JoinHandle → Pipe → Pipe
wait_for handle pipe = record pipe { flushed = max pipe.flushed handle.covers }

unfoldable pub on_joining : JoinHandle → Joining → PipeStream → Poll (Unit {0}) × PipeStream
on_joining handle (joined (done v)) stream = (
  ready (done v),
  record stream { inner = wait_for handle stream.inner; flush = none; dirty = false },
)
on_joining handle (joined (fails e)) stream = (ready (fails e), record stream { flush = none })
on_joining handle (panicked e) stream = (
  ready (io_error other (append "named pipe flush task failed: " e.message)),
  record stream { flush = none },
)
on_joining handle running stream = (pending, stream)

unfoldable pub poll_pending_flush : Joining → PipeStream → Poll (Unit {0}) × PipeStream
poll_pending_flush joining stream = elim stream.flush [
  | none ↦ (ready (done tt), stream)
  | some handle ↦ on_joining handle joining stream
]

-- The answer is that of `try_clone_to_owned`.
unfoldable pub begin_flush : IoResult (Unit {0}) → PipeStream → IoResult (Unit {0}) × PipeStream
begin_flush (fails e) stream = (fails e, stream)
begin_flush (done v) stream =
    (done v, record stream { flush = some (record { covers = stream.inner.written }) })

-- The write of the pipe, where it is polled.
unfoldable pub on_write : Poll ℕ → PipeStream → Poll ℕ × PipeStream
on_write (ready (done written)) stream =
    let pipe = record stream.inner { written = stream.inner.written + written } in
    (
      ready (done written),
      record stream { inner = pipe; dirty = stream.dirty || not (written == 0) },
    )
on_write (ready (fails e)) stream = (ready (fails e), stream)
on_write pending stream = (pending, stream)

unfoldable pub after_flush {ℓ} :
    {A : Type ℓ}
    → (PipeStream → Poll A × PipeStream)
    → Poll (Unit {0}) × PipeStream
    → Poll A × PipeStream
after_flush k (ready (done v), stream) = k stream
after_flush k (ready (fails e), stream) = (ready (fails e), stream)
after_flush k (pending, stream) = (pending, stream)

unfoldable pub poll_write : Joining → Poll ℕ → PipeStream → Poll ℕ × PipeStream
poll_write joining write stream = after_flush (on_write write) (poll_pending_flush joining stream)

-- The same with the vectored write of the pipe.
unfoldable pub poll_write_vectored : Joining → Poll ℕ → PipeStream → Poll ℕ × PipeStream
poll_write_vectored joining write stream =
    after_flush (on_write write) (poll_pending_flush joining stream)

unfoldable pub after_begin :
    Joining → IoResult (Unit {0}) × PipeStream → Poll (Unit {0}) × PipeStream
after_begin joining (fails e, stream) = (ready (fails e), stream)
after_begin joining (done v, stream) = poll_pending_flush joining stream

unfoldable pub flush_dirty :
    IoResult (Unit {0}) → Joining → PipeStream → Poll (Unit {0}) × PipeStream
flush_dirty clone second stream =
    if stream.dirty
    then after_begin second (begin_flush clone stream)
    else poll_pending_flush second stream

unfoldable pub poll_flush :
    Joining → IoResult (Unit {0}) → Joining → PipeStream → Poll (Unit {0}) × PipeStream
poll_flush first clone second stream =
    after_flush (flush_dirty clone second) (poll_pending_flush first stream)

-- The last argument is what shutting down the pipe answers.
unfoldable pub poll_shutdown :
    Joining
    → IoResult (Unit {0})
    → Joining
    → Poll (Unit {0})
    → PipeStream
    → Poll (Unit {0}) × PipeStream
poll_shutdown first clone second shutdown stream =
    after_flush (λ s. (shutdown, s)) (poll_flush first clone second stream)

-- The queue of the flush worker takes a job, is full, or has no worker.
pub data Sending : Type 0 where
  sent full disconnected : Sending

-- Where a flush job runs.
pub data Place : Type 0 where
  on_worker on_own_thread on_this_thread : Place

-- `spawn_fallback`, which runs the job itself where no thread can be started.
unfoldable pub spawn_fallback : Bool → Place
spawn_fallback spawned = if spawned then on_own_thread else on_this_thread

unfoldable pub send_job : Sending → Bool → Place
send_job sent spawned = on_worker
send_job full spawned = spawn_fallback spawned
send_job disconnected spawned = spawn_fallback spawned

unfoldable pub enqueue_linger : IoResult (Unit {0}) → Sending → Bool → IoResult Place
enqueue_linger (fails e) sending spawned = fails e
enqueue_linger (done v) sending spawned = done (send_job sending spawned)

-- `Drop for PipeStream`: the job that is left behind, if there is one.
unfoldable pub drop_stream :
    IoResult (Unit {0}) → Sending → Bool → PipeStream → Option (IoResult Place)
drop_stream clone sending spawned stream =
    if stream.dirty then some (enqueue_linger clone sending spawned) else none

-- What a caller does with a stream.
pub data Operation : Type 0 where
  writes writes_vectored : Joining → Poll ℕ → Operation
  flushes : Joining → IoResult (Unit {0}) → Joining → Operation
  shuts_down : Joining → IoResult (Unit {0}) → Joining → Poll (Unit {0}) → Operation

unfoldable pub step : Operation → PipeStream → PipeStream
step (writes joining write) stream = (poll_write joining write stream).1
step (writes_vectored joining write) stream = (poll_write_vectored joining write stream).1
step (flushes first clone second) stream = (poll_flush first clone second stream).1
step (shuts_down first clone second shutdown) stream =
    (poll_shutdown first clone second shutdown stream).1

unfoldable pub run : List Operation → PipeStream → PipeStream
run [] stream = stream
run (op ∷ ops) stream = run ops (step op stream)
