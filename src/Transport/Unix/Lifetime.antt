-- ===== src/Transport/Unix/Lifetime.antt =====
-- src/transport/unix.rs: a listener on a path that no other process touches, from its binding to its drop.
use kode_bridge.Base.{
  ℕ, suc, ◌≡◌, refl, sym, subst, inl, inr, ◌∙◌, Bool, true, false, ◌&&◌, ◌==◌, ◌∷◌, Option, none,
  some, if◌then◌else◌, Bool-cases, arith,
}
use kode_bridge.Bytes.{Bytes}
use kode_bridge.Transport.{done, ListenerOptions}
use kode_bridge.Transport.Unix.{
  System, inspects, removes, permits, listens, new_guard, State, bind_socket, Listener, set_mode,
  remove_own, drop_guard, drop_path_guard, path_guard, start_listening, with_guard, bind,
  bind_and_drop, Run,
}
use kode_bridge.Transport.Unix.Alone.{
  file, node, Node, IsAlone, may_bind, Succeeds, Refuses, socket_metadata_alone, bind_loop_free,
  bind_loop_stale, bind_loop_taken, same_file_refl,
}

module _ (sys : System) (path : Bytes) (look : sys.World → Option Node)
    (alone : IsAlone sys path look) where
  module _ (d i : ℕ) (live : Bool) where
    set_mode_alone :
        (mode : Option ℕ) (s : State sys)
        → look s.world ≡ some (node (file d i true) live)
        → Succeeds sys path look alone
            (set_mode sys path mode s)
            tt
            (some (node (file d i true) live))
    set_mode_alone none s l = (s, refl, l)
    set_mode_alone (some bits) s l =
        let (v, e, after) = alone.set_permissions bits s.world _ l in
        (record { world = v; calls = permits bits (done tt) ∷ s.calls }, rw (e), after)

    start_listening_alone :
        (options : ListenerOptions) (socket : sys.Socket) (s : State sys)
        → look s.world ≡ some (node (file d i true) live)
        → (inner : sys.Incoming) × Succeeds sys path look alone
            (start_listening sys path options socket (file d i true) s)
            inner
            (some (node (file d i true) true))
    unfolding start_listening
    start_listening_alone options socket s l =
        let (t, e, at) = set_mode_alone options.mode s l in
        let (u, f, here) = socket_metadata_alone sys path look alone d i live t at in
        let (inner, v, g, after) = alone.listen socket 1024 u.world _ here in
        (
          inner,
          (
            record { world = v; calls = listens 1024 ∷ u.calls },
            rw (e, f, same_file_refl d i true, g),
            after,
          ),
        )

    -- The drop of the guard leaves the path free, or as it was where there is none.
    drop_path_guard_alone :
        (options : ListenerOptions) (s : State sys)
        → look s.world ≡ some (node (file d i true) live)
        → Succeeds sys path look alone
            (drop_path_guard sys (path_guard path options (file d i true)) s)
            tt
            (if options.reclaim_name then none else some (node (file d i true) live))
    unfolding drop_path_guard path_guard drop_guard remove_own new_guard
    drop_path_guard_alone options s l = elim (Bool-cases options.reclaim_name) [
      | inr n ↦ (s, rw (n), l ∙ rw (n))
      | inl y ↦
          let (v, e, seen) = alone.inspect s.world _ l in
          let (w, f, gone) = alone.remove v _ seen in
          let own : (d == d && i == i) ≡ true = ground arith in
          (
            record {
              world = w;
              calls = removes (done tt) ∷ inspects (done (file d i true)) ∷ s.calls;
            },
            rw (y, e, own, f),
            gone ∙ rw (y),
          )
    ]

  -- What `Listener::bind` comes to: a listener on a socket at the path, or an error with the path as it
  -- was before.
  abbrev pub Answers : Bool → ListenerOptions → Option Node → Run sys (Listener sys) → Type 0
  Answers true options before run =
      (l : Listener sys) × (d i : ℕ) × (l.path_guard ≡ path_guard path options (file d i true))
      × Succeeds sys path look alone run l (some (node (file d i true) true))
  Answers false options before run = Refuses sys path look alone run before

  bound :
      (fuel : ℕ) (options : ListenerOptions) (before : Option Node) (s : State sys)
      (socket : sys.Socket) (d i : ℕ)
      → Succeeds sys path look alone
          (bind_socket sys fuel path options s)
          socket
          (some (node (file d i true) false))
      → Answers true options before (bind sys fuel path options s)
  unfolding bind with_guard
  bound fuel options before s socket d i (t, e, here) =
      let (u, f, still) = socket_metadata_alone sys path look alone d i false t here in
      let (inner, (v, g, after)) = start_listening_alone d i false options socket u still in
      let guard = path_guard path options (file d i true) in
      (record { path_guard = guard; inner = inner }, d, i, refl, (v, rw (e, f, g), after))

  refused :
      (fuel : ℕ) (options : ListenerOptions) (before : Option Node) (s : State sys)
      → Refuses sys path look alone (bind_socket sys fuel path options s) before
      → Answers false options before (bind sys fuel path options s)
  unfolding bind
  refused fuel options before s (text, t, e, after) = (text, t, rw (e), after)

  -- On a path that no other process touches, two rounds are enough for `Listener::bind`. It succeeds
  -- exactly at a free path and, with `try_overwrite`, at a stale socket: then it listens on a socket of
  -- its own, which its guard names. Otherwise it fails with `AddrInUse`, and what stands there stays.
  pub bind_alone :
      (fuel : ℕ) (options : ListenerOptions) (s : State sys) (before : Option Node)
      → look s.world ≡ before
      → Answers (may_bind options before) options before (bind sys (suc (suc fuel)) path options s)
  unfolding bind_socket
  bind_alone fuel options s none l =
      let (socket, d, i, b) =
        bind_loop_free sys path look alone (suc fuel) options (sys.now s.world) false s l in
      bound (suc (suc fuel)) options none s socket d i b
  bind_alone fuel options s (some n) l = elim (Bool-cases (may_bind options (some n))) [
    | inl y ↦
        let stale : some n ≡ some (node (file n.file.dev n.file.ino true) false) = ground arith in
        let (socket, j, k, b) =
          bind_loop_stale sys path look alone fuel options (sys.now s.world) n.file.dev n.file.ino s
            (l ∙ stale) (ground arith) in
        subst (λ b. Answers b options (some n) (bind sys (suc (suc fuel)) path options s)) (sym y)
          (bound (suc (suc fuel)) options (some n) s socket j k b)
    | inr e ↦
        subst (λ b. Answers b options (some n) (bind sys (suc (suc fuel)) path options s)) (sym e)
          (refused (suc (suc fuel)) options (some n) s (
            bind_loop_taken sys path look alone (suc fuel) options (sys.now s.world) n.file.dev
              n.file.ino s n.file.is_socket n.live l e))
  ]

  -- On such a path that may be bound, a listener that is bound and dropped leaves the path free, or its
  -- socket there with `reclaim_name` off.
  bind_and_drop_alone :
      (fuel : ℕ) (options : ListenerOptions) (s : State sys) (before : Option Node)
      → look s.world ≡ before
      → may_bind options before ≡ true
      → (d i : ℕ) × Succeeds sys path look alone
          (bind_and_drop sys (suc (suc fuel)) path options s)
          tt
          (if options.reclaim_name then none else some (node (file d i true) true))
  unfolding bind_and_drop
  bind_and_drop_alone fuel options s before l y =
      let (listener, d, i, guard, (t, e, here)) =
        subst (λ b. Answers b options before (bind sys (suc (suc fuel)) path options s)) y
          (bind_alone fuel options s before l) in
      let (u, f, after) = drop_path_guard_alone d i true options t here in
      (d, i, (u, rw (e, guard, f), after))
