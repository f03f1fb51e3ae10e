-- ===== src/Transport/Unix/Alone.antt =====
-- src/transport/unix.rs: what a listener does with its path while no other process touches it.
use kode_bridge.Base.{
  String, ℕ, suc, ◌≡◌, refl, inl, inr, ◌∙◌, Bool, true, false, not, ◌&&◌, ◌∷◌, Option, none, some,
  Bool-cases, arith,
}
use kode_bridge.Bytes.{Bytes}
use kode_bridge.Transport.{
  io_error, is_connection_refused, addr_in_use, connection_refused, done, ListenerOptions,
  is_addr_in_use,
}
use kode_bridge.Transport.Unix.{
  Metadata, System, opens, binds, inspects, removes, same_file, State, Cmd, socket_metadata,
  reclaim_stale_socket, on_bound, bind_loop, returns, Run, connects, and_then, remove_unchanged,
  on_connected,
}

-- What stands at the path, and whether a process accepts connections on it.
pub record Node : Type 0 where
  pub file : Metadata
  pub live : Bool

abbrev pub file : ℕ → ℕ → Bool → Metadata
file dev ino is_socket = record { dev = dev; ino = ino; is_socket = is_socket }

abbrev pub node : Metadata → Bool → Node
node file live = record { file = file; live = live }

-- POSIX on one path that only this process uses, while its other calls succeed: `look` is what stands
-- there. Binding makes a socket at a free path and finds a taken one in use; a connection is refused
-- exactly where nobody listens.
pub record IsAlone (sys : System) (path : Bytes) (look : sys.World → Option Node) : Type 0 where
  pub new_stream :
      (w : sys.World)
      → (socket : sys.Socket) × (v : sys.World) × (sys.new_stream w ≡ (done socket, v))
        × (look v ≡ look w)
  pub bind-free :
      (socket : sys.Socket) (w : sys.World)
      → look w ≡ none
      → (dev ino : ℕ) × (v : sys.World) × (sys.bind path socket w ≡ (done tt, v))
        × (look v ≡ some (node (file dev ino true) false))
  pub bind-taken :
      (socket : sys.Socket) (w : sys.World) (n : Node)
      → look w ≡ some n
      → (text : String) × (v : sys.World) × (sys.bind path socket w
          ≡ (io_error addr_in_use text, v))
        × (look v ≡ some n)
  pub inspect :
      (w : sys.World) (n : Node)
      → look w ≡ some n
      → (v : sys.World) × (sys.symlink_metadata path w ≡ (done n.file, v)) × (look v ≡ some n)
  pub connect-live :
      (w : sys.World) (n : Node)
      → look w ≡ some n
      → n.live ≡ true
      → (v : sys.World) × (sys.connect path w ≡ (done tt, v)) × (look v ≡ some n)
  pub connect-stale :
      (w : sys.World) (n : Node)
      → look w ≡ some n
      → n.live ≡ false
      → (text : String) × (v : sys.World) × (sys.connect path w
          ≡ (io_error connection_refused text, v))
        × (look v ≡ some n)
  pub remove :
      (w : sys.World) (n : Node)
      → look w ≡ some n
      → (v : sys.World) × (sys.remove_file path w ≡ (done tt, v)) × (look v ≡ none)
  pub set_permissions :
      (bits : ℕ) (w : sys.World) (n : Node)
      → look w ≡ some n
      → (v : sys.World) × (sys.set_permissions path bits w ≡ (done tt, v)) × (look v ≡ some n)
  pub listen :
      (socket : sys.Socket) (backlog : ℕ) (w : sys.World) (n : Node)
      → look w ≡ some n
      → (inner : sys.Incoming) × (v : sys.World) × (sys.listen socket backlog w ≡ (done inner, v))
        × (look v ≡ some (node n.file true))

-- Whether `Listener::bind` may take the path.
abbrev pub may_bind : ListenerOptions → Option Node → Bool
may_bind options none = true
may_bind options (some n) = options.try_overwrite && (n.file.is_socket && not n.live)

pub same_file_refl : (d i : ℕ) (b : Bool) → same_file (file d i b) (file d i b) ≡ true
unfolding same_file
same_file_refl d i b = ground arith

module _ (sys : System) (path : Bytes) (look : sys.World → Option Node)
    (alone : IsAlone sys path look) where
  -- A command that succeeds with `a`, and leaves the path as `after` says.
  abbrev pub Succeeds : {A : Type 0} → Run sys A → A → Option Node → Type 0
  Succeeds run a after = (t : State sys) × (run ≡ returns (done a) t) × (look t.world ≡ after)

  -- A command that finds the path in use and leaves it as it was.
  abbrev pub Refuses : {A : Type 0} → Run sys A → Option Node → Type 0
  Refuses run after =
      (text : String) × (t : State sys) × (run ≡ returns (io_error addr_in_use text) t)
      × (look t.world ≡ after)

  module _ (d i : ℕ) (live : Bool) (s : State sys)
      (l : look s.world ≡ some (node (file d i true) live)) where
    pub socket_metadata_alone :
        Succeeds (socket_metadata sys path s) (file d i true) (some (node (file d i true) live))
    unfolding socket_metadata
    socket_metadata_alone =
        let (v, e, after) = alone.inspect s.world _ l in
        (record { world = v; calls = inspects (done (file d i true)) ∷ s.calls }, rw (e), after)

    remove_unchanged_alone : Succeeds (remove_unchanged sys path (file d i true) s) tt none
    unfolding remove_unchanged
    remove_unchanged_alone =
        let (v, e, seen) = alone.inspect s.world _ l in
        let (w, f, gone) = alone.remove v _ seen in
        let calls = removes (done tt) ∷ inspects (done (file d i true)) ∷ s.calls in
        (record { world = w; calls = calls }, rw (e, same_file_refl d i true, f), gone)

  reclaim_stale :
      (d i : ℕ) (s : State sys)
      → look s.world ≡ some (node (file d i true) false)
      → Succeeds (reclaim_stale_socket sys path s) tt none
  unfolding reclaim_stale_socket on_connected is_connection_refused
  reclaim_stale d i s l =
      let (v, e, seen) = alone.inspect s.world _ l in
      let (text, w, f, still) = alone.connect-stale v _ seen refl in
      let calls =
        connects (io_error connection_refused text) ∷ inspects (done (file d i true)) ∷ s.calls in
      let (t, g, gone) =
        remove_unchanged_alone d i false (record { world = w; calls = calls }) still in
      (t, rw (e, f, g), gone)

  reclaim_taken :
      (d i : ℕ) (is_socket live : Bool) (s : State sys)
      → (is_socket && not live) ≡ false
      → look s.world ≡ some (node (file d i is_socket) live)
      → Refuses (reclaim_stale_socket sys path s) (some (node (file d i is_socket) live))
  unfolding reclaim_stale_socket on_connected
  reclaim_taken d i false live s b l =
      let (v, e, seen) = alone.inspect s.world _ l in
      (
        "refusing to replace a non-socket endpoint",
        record { world = v; calls = inspects (done (file d i false)) ∷ s.calls },
        rw (e),
        seen,
      )
  reclaim_taken d i true true s b l =
      let (v, e, seen) = alone.inspect s.world _ l in
      let (w, f, still) = alone.connect-live v _ seen refl in
      let calls = connects (done tt) ∷ inspects (done (file d i true)) ∷ s.calls in
      (
        "refusing to replace a live Unix listener",
        record { world = w; calls = calls },
        rw (e, f),
        still,
      )
  reclaim_taken d i true false s b l = cc

  -- A free path is bound in the first round.
  pub bind_loop_free :
      (fuel : ℕ) (options : ListenerOptions) (started : ℕ) (attempted : Bool) (s : State sys)
      → look s.world ≡ none
      → (socket : sys.Socket) × (d i : ℕ) × Succeeds
          (bind_loop sys (suc fuel) path options started attempted s)
          socket
          (some (node (file d i true) false))
  unfolding bind_loop on_bound
  bind_loop_free fuel options started attempted s l =
      let (socket, v, e, same) = alone.new_stream s.world in
      let (d, i, w, f, here) = alone.bind-free socket v (same ∙ l) in
      (
        socket,
        d,
        i,
        (record { world = w; calls = binds (done tt) ∷ opens ∷ s.calls }, rw (e, f), here),
      )

  module _ (options : ListenerOptions) (started : ℕ) (socket : sys.Socket)
      (again : Cmd sys sys.Socket) (text : String) (s : State sys) where
    on_bound-retry :
        options.try_overwrite ≡ true
        → on_bound sys path options started false socket again (io_error addr_in_use text) s
          ≡ and_then sys (reclaim_stale_socket sys path s) (λ _. again)
    unfolding on_bound is_addr_in_use
    on_bound-retry e = rw (e)

    on_bound-give_up :
        options.try_overwrite ≡ false
        → on_bound sys path options started false socket again (io_error addr_in_use text) s
          ≡ returns (io_error addr_in_use text) s
    unfolding on_bound is_addr_in_use
    on_bound-give_up e = rw (e)

  module _ (fuel : ℕ) (options : ListenerOptions) (started d i : ℕ) (s : State sys) where
    pub bind_loop_stale :
        look s.world ≡ some (node (file d i true) false)
        → options.try_overwrite ≡ true
        → (socket : sys.Socket) × (j k : ℕ) × Succeeds
            (bind_loop sys (suc (suc fuel)) path options started false s)
            socket
            (some (node (file j k true) false))
    unfolding bind_loop
    bind_loop_stale l over =
        let (first, v, e, same) = alone.new_stream s.world in
        let (text, w, f, taken) = alone.bind-taken first v _ (same ∙ l) in
        let u : State sys = record {
          world = w;
          calls = binds (io_error addr_in_use text) ∷ opens ∷ s.calls;
        } in
        let (t, g, gone) = reclaim_stale d i u taken in
        let (socket, j, k, bound) = bind_loop_free fuel options started true t gone in
        (
          socket,
          j,
          k,
          (
            bound.0,
            rw
                (
                  e,
                  f,
                  on_bound-retry options started first
                      (bind_loop sys (suc fuel) path options started true) text u over,
                  g,
                )
                bound.1,
            bound.2,
          ),
        )

    pub bind_loop_taken :
        (is_socket live : Bool)
        → look s.world ≡ some (node (file d i is_socket) live)
        → (options.try_overwrite && (is_socket && not live)) ≡ false
        → Refuses
            (bind_loop sys (suc fuel) path options started false s)
            (some (node (file d i is_socket) live))
    unfolding bind_loop
    bind_loop_taken is_socket live l b =
        let (first, v, e, same) = alone.new_stream s.world in
        let (text, w, f, taken) = alone.bind-taken first v _ (same ∙ l) in
        let u : State sys = record {
          world = w;
          calls = binds (io_error addr_in_use text) ∷ opens ∷ s.calls;
        } in
        let rest = bind_loop sys fuel path options started true in
        elim (Bool-cases options.try_overwrite) [
          | inr n ↦
              (text, u, rw (e, f, on_bound-give_up options started first rest text u n), taken)
          | inl over ↦
              let (why, t, g, still) = reclaim_taken d i is_socket live u (ground arith) taken in
              (why, t, rw (e, f, on_bound-retry options started first rest text u over, g), still)
        ]
