-- ===== src/Transport/Windows/Stream/Flushed.antt =====
-- src/transport/windows.rs, `PipeStream`: a flush that succeeds, and a stream that is dropped without
-- a job, have nothing unread behind them.
use kode_bridge.Base.{
  ℕ, ◌+◌, ◌≤◌, ◌≡◌, ◌⊎◌, refl, sym, subst, inl, inr, Bool, true, false, not, ◌||◌, ◌==◌, List, [],
  ◌∷◌, Option, none, some, if◌then◌else◌, Bool-cases, Option-cases, arith,
}
use kode_bridge.Transport.{IoResult, done, fails}
use kode_bridge.Transport.Windows.Stream.{
  Poll, ready, pending, Pipe, JoinHandle, Joining, joined, panicked, running, PipeStream,
  new_stream, on_joining, poll_pending_flush, begin_flush, on_write, after_flush, poll_write,
  poll_write_vectored, after_begin, flush_dirty, poll_flush, poll_shutdown, Sending, enqueue_linger,
  drop_stream, Operation, writes, writes_vectored, flushes, shuts_down, step, run,
}

-- A flush is under way only on a dirty stream, and covers all that was written.
abbrev pub Covers : Option JoinHandle → Bool → Pipe → Type 0
Covers none dirty pipe = Unit
Covers (some handle) dirty pipe = (dirty ≡ true) × (handle.covers ≡ pipe.written)

-- A stream that is not dirty has nothing that was not flushed.
pub record IsTracked (s : PipeStream) : Type 0 where
  pub within : s.inner.flushed ≤ s.inner.written
  pub clean : (s.dirty ≡ true) ⊎ (s.inner.flushed ≡ s.inner.written)
  pub covered : Covers s.flush s.dirty s.inner

-- Where a poll is ready, no flush is under way.
abbrev IsIdle : {A : Type 0} → Poll A → Option JoinHandle → Type 0
IsIdle (ready r) flush = flush ≡ none
IsIdle pending flush = Unit

record Leaves {A : Type 0} (r : Poll A × PipeStream) : Type 0 where
  tracked : IsTracked r.1
  idle : IsIdle r.0 r.1.flush

on_joining-Leaves :
    (handle : JoinHandle) (joining : Joining) (s : PipeStream)
    → handle.covers ≡ s.inner.written
    → s.dirty ≡ true
    → IsTracked s
    → Leaves (on_joining handle joining s)
unfolding on_joining
on_joining-Leaves handle (joined (done v)) s e d i = ground arith
on_joining-Leaves handle (joined (fails f)) s e d i = ground arith
on_joining-Leaves handle (panicked f) s e d i = ground arith
on_joining-Leaves handle running s e d i = record { tracked = i; idle = tt }

poll_pending_flush-Leaves :
    (joining : Joining) (s : PipeStream) → IsTracked s → Leaves (poll_pending_flush joining s)
unfolding poll_pending_flush
poll_pending_flush-Leaves joining s i = elim (Option-cases s.flush) [
  | inl e ↦ rw (poll_pending_flush, e) (record { tracked = i; idle = e })
  | inr (handle, e) ↦
      let (dirty, covers) = subst (λ f. Covers f s.dirty s.inner) e i.covered in
      rw (poll_pending_flush, e) (on_joining-Leaves handle joining s covers dirty i)
]

after_flush-Leaves :
    {A : Type 0} (k : PipeStream → Poll A × PipeStream) (r : Poll (Unit {0}) × PipeStream)
    → Leaves r
    → ((s : PipeStream) → IsTracked s → s.flush ≡ none → Leaves (k s))
    → Leaves (after_flush k r)
unfolding after_flush
after_flush-Leaves k (ready (done v), s) l h = h s l.tracked l.idle
after_flush-Leaves k (ready (fails e), s) l h = record { tracked = l.tracked; idle = l.idle }
after_flush-Leaves k (pending, s) l h = record { tracked = l.tracked; idle = tt }

on_write-Leaves :
    (write : Poll ℕ) (s : PipeStream) → IsTracked s → s.flush ≡ none → Leaves (on_write write s)
unfolding on_write
on_write-Leaves (ready (done n)) s i e = record {
  tracked = record {
    within = ground (arith, i.within);
    clean = ground (arith, i.clean);
    covered =
        subst
          (λ f.
            Covers f (s.dirty || not (n == 0)) (record s.inner { written = s.inner.written + n }))
          (sym e) tt;
  };
  idle = e;
}
on_write-Leaves (ready (fails f)) s i e = record { tracked = i; idle = e }
on_write-Leaves pending s i e = record { tracked = i; idle = tt }

begin_flush-Leaves :
    (clone : IoResult (Unit {0})) (second : Joining) (s : PipeStream)
    → IsTracked s
    → s.flush ≡ none
    → s.dirty ≡ true
    → Leaves (after_begin second (begin_flush clone s))
unfolding after_begin begin_flush
begin_flush-Leaves (fails f) second s i e d = record { tracked = i; idle = e }
begin_flush-Leaves (done v) second s i e d =
    let began = record s { flush = some (record { covers = s.inner.written }) } in
    poll_pending_flush-Leaves second began
      (record { within = i.within; clean = i.clean; covered = (d, refl) })

if-Leaves :
    {A : Type 0} (b : Bool) (x y : Poll A × PipeStream)
    → (b ≡ true → Leaves x)
    → (b ≡ false → Leaves y)
    → Leaves (if b then x else y)
if-Leaves true x y hx hy = hx refl
if-Leaves false x y hx hy = hy refl

flush_dirty-Leaves :
    (clone : IoResult (Unit {0})) (second : Joining) (s : PipeStream)
    → IsTracked s
    → s.flush ≡ none
    → Leaves (flush_dirty clone second s)
unfolding flush_dirty
flush_dirty-Leaves clone second s i e =
    if-Leaves s.dirty (after_begin second (begin_flush clone s)) (poll_pending_flush second s)
      (begin_flush-Leaves clone second s i e) (λ n. poll_pending_flush-Leaves second s i)

poll_flush-Leaves :
    (first : Joining) (clone : IoResult (Unit {0})) (second : Joining) (s : PipeStream)
    → IsTracked s
    → Leaves (poll_flush first clone second s)
unfolding poll_flush
poll_flush-Leaves first clone second s i =
    after_flush-Leaves (flush_dirty clone second) (poll_pending_flush first s)
      (poll_pending_flush-Leaves first s i) (flush_dirty-Leaves clone second)

answer-Leaves :
    (shutdown : Poll (Unit {0})) (s : PipeStream)
    → IsTracked s
    → s.flush ≡ none
    → Leaves (shutdown, s)
answer-Leaves (ready r) s i e = record { tracked = i; idle = e }
answer-Leaves pending s i e = record { tracked = i; idle = tt }

step-IsTracked : (op : Operation) (s : PipeStream) → IsTracked s → IsTracked (step op s)
unfolding step poll_write poll_write_vectored poll_shutdown
step-IsTracked (writes joining write) s i =
    (after_flush-Leaves (on_write write) (poll_pending_flush joining s)
      (poll_pending_flush-Leaves joining s i) (on_write-Leaves write)).tracked
step-IsTracked (writes_vectored joining write) s i =
    (after_flush-Leaves (on_write write) (poll_pending_flush joining s)
      (poll_pending_flush-Leaves joining s i) (on_write-Leaves write)).tracked
step-IsTracked (flushes first clone second) s i = (poll_flush-Leaves first clone second s i).tracked
step-IsTracked (shuts_down first clone second shutdown) s i =
    (after_flush-Leaves (λ t. (shutdown, t)) (poll_flush first clone second s)
      (poll_flush-Leaves first clone second s i) (answer-Leaves shutdown)).tracked

run-IsTracked : (ops : List Operation) (s : PipeStream) → IsTracked s → IsTracked (run ops s)
unfolding run
run-IsTracked [] s i = i
run-IsTracked (op ∷ ops) s i = run-IsTracked ops (step op s) (step-IsTracked op s i)

new_stream-IsTracked : (pipe : Pipe) → pipe.flushed ≡ pipe.written → IsTracked (new_stream pipe)
unfolding new_stream
new_stream-IsTracked pipe e = record { within = omega (arith, e); clean = inr e; covered = tt }

-- What an answer of a flush promises: that all which was written was flushed.
abbrev pub Promises : Poll (Unit {0}) × PipeStream → Type 0
Promises (ready (done v), s) = s.inner.flushed ≡ s.inner.written
Promises (ready (fails e), s) = Unit
Promises (pending, s) = Unit

on_joining-Promises :
    (handle : JoinHandle) (joining : Joining) (s : PipeStream)
    → handle.covers ≡ s.inner.written
    → s.inner.flushed ≤ s.inner.written
    → Promises (on_joining handle joining s)
unfolding on_joining
on_joining-Promises handle (joined (done v)) s e w = omega (arith, e, w)
on_joining-Promises handle (joined (fails f)) s e w = tt
on_joining-Promises handle (panicked f) s e w = tt
on_joining-Promises handle running s e w = tt

begin_flush-Promises :
    (clone : IoResult (Unit {0})) (second : Joining) (s : PipeStream)
    → s.inner.flushed ≤ s.inner.written
    → Promises (after_begin second (begin_flush clone s))
unfolding after_begin begin_flush poll_pending_flush
begin_flush-Promises (fails f) second s w = tt
begin_flush-Promises (done v) second s w =
    let handle : JoinHandle = record { covers = s.inner.written } in
    on_joining-Promises handle second (record s { flush = some handle }) refl w

not_dirty-Promises :
    (second : Joining) (s : PipeStream)
    → IsTracked s
    → s.flush ≡ none
    → s.dirty ≡ false
    → Promises (poll_pending_flush second s)
unfolding poll_pending_flush
not_dirty-Promises second s i e n =
    let nothing : poll_pending_flush second s ≡ (ready (done tt), s) = rw (e) in
    subst Promises (sym nothing) (ground (arith, i.clean, n))

flush_dirty-Promises :
    (clone : IoResult (Unit {0})) (second : Joining) (s : PipeStream)
    → IsTracked s
    → s.flush ≡ none
    → Promises (flush_dirty clone second s)
unfolding flush_dirty
flush_dirty-Promises clone second s i e = elim (Bool-cases s.dirty) [
  | inl d ↦
      subst
        (λ b.
          Promises
            (if b then after_begin second (begin_flush clone s) else poll_pending_flush second s))
        (sym d) (begin_flush-Promises clone second s i.within)
  | inr n ↦
      subst
        (λ b.
          Promises
            (if b then after_begin second (begin_flush clone s) else poll_pending_flush second s))
        (sym n) (not_dirty-Promises second s i e n)
]

after_flush-Promises :
    (k : PipeStream → Poll (Unit {0}) × PipeStream) (r : Poll (Unit {0}) × PipeStream)
    → Leaves r
    → ((s : PipeStream) → IsTracked s → s.flush ≡ none → Promises (k s))
    → Promises (after_flush k r)
unfolding after_flush
after_flush-Promises k (ready (done v), s) l h = h s l.tracked l.idle
after_flush-Promises k (ready (fails e), s) l h = tt
after_flush-Promises k (pending, s) l h = tt

-- Whatever is done with a stream on a pipe without unread bytes, and whatever its polls answer: a
-- flush that succeeds has waited for every byte that was written, and dropping the stream leaves a
-- flush job behind, or an attempt at one, unless every byte was waited for.
pub stream_loses_nothing :
    (pipe : Pipe) (ops : List Operation) (first second : Joining) (clone : IoResult (Unit {0}))
    (sending : Sending) (spawned : Bool)
    → pipe.flushed ≡ pipe.written
    → let s = run ops (new_stream pipe) in
      Promises (poll_flush first clone second s)
      × ((drop_stream clone sending spawned s ≡ some (enqueue_linger clone sending spawned))
          ⊎ (s.inner.flushed ≡ s.inner.written))
unfolding poll_flush drop_stream
stream_loses_nothing pipe ops first second clone sending spawned e =
    let s = run ops (new_stream pipe) in
    let i = run-IsTracked ops (new_stream pipe) (new_stream-IsTracked pipe e) in
    (
      after_flush-Promises (flush_dirty clone second) (poll_pending_flush first s)
          (poll_pending_flush-Leaves first s i) (flush_dirty-Promises clone second),
      elim i.clean [ inl d ↦ inl (rw (d)) | inr f ↦ inr f ],
    )
