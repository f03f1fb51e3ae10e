-- ===== src/Transport/Unix/Binding.antt =====
-- src/transport/unix.rs: a listener from its binding to its drop removes no file but a stale socket and
-- its own.
use kode_bridge.Base.{
  ℕ, zero, suc, ◌-◌, ◌≡◌, refl, sym, ap, subst, inl, inr, ◌∙◌, Bool, true, false, not, ◌&&◌, ◌==◌,
  List, ◌∷◌, Option, none, some, if◌then◌else◌, Bool-cases, arith,
}
use kode_bridge.Bytes.{Bytes}
use kode_bridge.Transport.{IoResult, done, fails, ListenerOptions, is_addr_in_use}
use kode_bridge.Transport.Unix.{
  has_spun, ◌>>◌, give, Metadata, System, Event, opens, binds, inspects, removes, permits, listens,
  same_file, new_guard, State, Cmd, calls_of, new_stream, call_bind, symlink_metadata,
  socket_metadata, reclaim_stale_socket, on_bound, bind_loop, bind_socket, Listener, set_mode,
  remove_own, drop_guard, drop_path_guard, path_guard, start_listening, with_guard, bind,
  bind_and_drop,
}
use kode_bridge.Transport.Unix.Careful.{
  is_removal, IsOwn, seen, later, IsCareful, keeps, cleans_up, Leaves, Quiet, if-Leaves,
  calls_of-IsCareful, match_on-Leaves, and_then-Leaves, Noted, reclaim_stale_socket-Leaves,
}

module _ (sys : System) where
  module _ (path : Bytes) where
    -- A binding that succeeded was the last call.
    abbrev Bound : IoResult sys.Socket → List Event → Type 0
    Bound (done socket) calls =
        IsCareful calls × ((rest : List Event) × (calls ≡ binds (done tt) ∷ rest))
    Bound (fails e) calls = IsCareful calls

    on_bound-Leaves :
        (options : ListenerOptions) (started : ℕ) (attempted : Bool) (socket : sys.Socket)
        (again : Cmd sys sys.Socket) (r : IoResult (Unit {0})) (s : State sys) (calls : List Event)
        → ((t : State sys) → IsCareful t.calls → Leaves sys Bound (again t))
        → s.calls ≡ binds r ∷ calls
        → IsCareful calls
        → Leaves sys Bound (on_bound sys path options started attempted socket again r s)
    unfolding on_bound
    on_bound-Leaves options started attempted socket again (done v) s calls rest q h =
        (subst IsCareful (sym q) (keeps (binds (done v)) calls refl h), (calls, q))
    on_bound-Leaves options started attempted socket again (fails e) s calls rest q h =
        let quiet = subst IsCareful (sym q) (keeps (binds (fails e)) calls refl h) in
        let spun = attempted && has_spun options.max_spin_time (sys.now s.world - started) in
        let retry : Cmd sys sys.Socket = ◌>>◌ sys (reclaim_stale_socket sys path) again in
        let give_up : Cmd sys sys.Socket = give sys (fails e) in
        if-Leaves sys Bound (is_addr_in_use e.kind && options.try_overwrite)
          (if spun then give_up else retry) give_up s
          (λ b.
            if-Leaves sys Bound spun give_up retry s (λ n. quiet)
              (λ n.
                and_then-Leaves sys (Quiet sys) Bound (reclaim_stale_socket sys path s) (λ _. again)
                  (reclaim_stale_socket-Leaves sys path s quiet) (λ v t. rest t)
                  (λ failure after h'. h')))
          (λ b. quiet)

    bind_loop-Leaves :
        (fuel : ℕ) (options : ListenerOptions) (started : ℕ) (attempted : Bool) (s : State sys)
        → IsCareful s.calls
        → Leaves sys Bound (bind_loop sys fuel path options started attempted s)
    unfolding bind_loop
    bind_loop-Leaves zero options started attempted s h = h
    bind_loop-Leaves (suc fuel) options started attempted s h =
        and_then-Leaves sys (Noted sys (λ _. opens) s.calls) Bound (new_stream sys s) _ refl
          (λ socket t q.
            match_on-Leaves sys (Noted sys binds t.calls) Bound (call_bind sys path socket t) _ refl
              (λ r u p.
                on_bound-Leaves options started attempted socket _ r u t.calls
                  (bind_loop-Leaves fuel options started true) p
                  (subst IsCareful (sym q) (keeps opens s.calls refl h))))
          (λ e calls q. subst IsCareful (sym q) (keeps opens s.calls refl h))

    -- The file of `first` is the process's own.
    abbrev Knows : Metadata → List Event → Type 0
    Knows first calls =
        IsCareful calls × ((m : Metadata) → same_file first m ≡ true → IsOwn m calls)

    Knows-keeps :
        (first : Metadata) (call : Event) (calls after : List Event)
        → is_removal call ≡ false
        → Knows first calls
        → after ≡ call ∷ calls
        → Knows first after
    Knows-keeps first call calls after n k q =
        subst (Knows first) (sym q) (keeps call calls n k.0, λ m e. later call calls (k.1 m e))

    abbrev Known : {A : Type 0} → Metadata → IoResult A → List Event → Type 0
    Known first r = Knows first

    -- The metadata that `Listener::bind` reads first are those of its own socket.
    abbrev Sees : IoResult Metadata → List Event → Type 0
    Sees (done first) calls = Knows first calls
    Sees (fails e) calls = IsCareful calls

    socket_metadata-Sees :
        (s : State sys) (rest : List Event)
        → s.calls ≡ binds (done tt) ∷ rest
        → IsCareful s.calls
        → Leaves sys Sees (socket_metadata sys path s)
    unfolding socket_metadata
    socket_metadata-Sees s rest e h =
        and_then-Leaves sys (Noted sys inspects s.calls) Sees (symlink_metadata sys path s) _ refl
          (λ first t q.
            let quiet = subst IsCareful (sym q) (keeps (inspects (done first)) s.calls refl h) in
            if-Leaves sys Sees (not first.is_socket) _ _ t (λ b. quiet)
              (λ b. (
                quiet,
                λ m same.
                    subst (IsOwn m) (sym (q ∙ ap (◌∷◌ (inspects (done first))) e))
                      (seen first rest same),
              )))
          (λ failure calls q.
            subst IsCareful (sym q) (keeps (inspects (fails failure)) s.calls refl h))

    socket_metadata-Knows :
        (known : Metadata) (s : State sys)
        → Knows known s.calls
        → Leaves sys (Known known) (socket_metadata sys path s)
    unfolding socket_metadata
    socket_metadata-Knows known s k =
        and_then-Leaves sys (Noted sys inspects s.calls) (Known known) (symlink_metadata sys path s)
          _ refl
          (λ first t q.
            let quiet = Knows-keeps known (inspects (done first)) s.calls t.calls refl k q in
            if-Leaves sys (Known known) (not first.is_socket) _ _ t (λ b. quiet) (λ b. quiet))
          (λ failure calls q. Knows-keeps known (inspects (fails failure)) s.calls calls refl k q)

    set_mode-Knows :
        (known : Metadata) (bits : Option ℕ) (s : State sys)
        → Knows known s.calls
        → Leaves sys (Known known) (set_mode sys path bits s)
    set_mode-Knows known none s k = k
    set_mode-Knows known (some bits) s k = Knows-keeps known (permits bits _) s.calls _ refl k refl

    start_listening-Knows :
        (options : ListenerOptions) (socket : sys.Socket) (known : Metadata) (s : State sys)
        → Knows known s.calls
        → Leaves sys (Known known) (start_listening sys path options socket known s)
    unfolding start_listening
    start_listening-Knows options socket known s k =
        and_then-Leaves sys (Known known) (Known known) (set_mode sys path options.mode s) _
          (set_mode-Knows known options.mode s k)
          (λ v t k1.
            and_then-Leaves sys (Known known) (Known known) (socket_metadata sys path t) _
              (socket_metadata-Knows known t k1)
              (λ current u k2.
                if-Leaves sys (Known known) (not (same_file known current)) _ _ u (λ b. k2)
                  (λ b. Knows-keeps known (listens 1024) u.calls _ refl k2 refl))
              (λ e calls k2. k2))
          (λ e calls k1. k1)

    known_again :
        (known m : Metadata)
        → (m.dev == known.dev && m.ino == known.ino) ≡ true
        → same_file known m ≡ true
    unfolding same_file
    known_again known m e = ground arith

    remove_own-Leaves :
        (known : Metadata) (r : IoResult Metadata) (s : State sys) (calls : List Event)
        → s.calls ≡ inspects r ∷ calls
        → Knows known calls
        → Leaves sys (Quiet sys) (remove_own sys (new_guard path known) r s)
    unfolding remove_own new_guard
    remove_own-Leaves known (fails e) s calls q k =
        subst IsCareful (sym q) (keeps (inspects (fails e)) calls refl k.0)
    remove_own-Leaves known (done m) s calls q k =
        if-Leaves sys (Quiet sys) (m.is_socket && (m.dev == known.dev && m.ino == known.ino)) _ _ s
          (λ b.
            subst IsCareful (ap (◌∷◌ (removes (sys.remove_file path s.world).0)) (sym q))
              (cleans_up m _ calls (ground arith) (k.1 m (known_again known m (ground arith))) k.0))
          (λ b. subst IsCareful (sym q) (keeps (inspects (done m)) calls refl k.0))

    drop_guard-Leaves :
        (known : Metadata) (s : State sys)
        → Knows known s.calls
        → Leaves sys (Quiet sys) (drop_guard sys (new_guard path known) s)
    unfolding drop_guard
    drop_guard-Leaves known s k =
        match_on-Leaves sys (Noted sys inspects s.calls) (Quiet sys)
          (symlink_metadata sys (new_guard path known).path s) _ refl
          (λ r t q. remove_own-Leaves known r t s.calls q k)

    drop_path_guard-Leaves :
        (options : ListenerOptions) (known : Metadata) (s : State sys)
        → Knows known s.calls
        → Leaves sys (Quiet sys) (drop_path_guard sys (path_guard path options known) s)
    unfolding drop_path_guard path_guard
    drop_path_guard-Leaves options known s k =
        let P : Bool → Type 0 = λ b.
          Leaves sys (Quiet sys)
            (drop_path_guard sys (if b then some (new_guard path known) else none) s) in
        elim (Bool-cases options.reclaim_name) [
          | inl e ↦ subst P (sym e) (drop_guard-Leaves known s k)
          | inr e ↦ subst P (sym e) k.0
        ]

    -- The guard of the listener stands for a socket of its own.
    abbrev Guards : ListenerOptions → IoResult (Listener sys) → List Event → Type 0
    Guards options (done l) calls =
        (known : Metadata) × (l.path_guard ≡ path_guard path options known) × Knows known calls
    Guards options (fails e) calls = IsCareful calls

    with_guard-Guards :
        (options : ListenerOptions) (known : Metadata) (r : IoResult sys.Incoming) (s : State sys)
        → Knows known s.calls
        → Leaves sys (Guards options) (with_guard sys (path_guard path options known) r s)
    unfolding with_guard
    with_guard-Guards options known (done inner) s k = (known, refl, k)
    with_guard-Guards options known (fails e) s k =
        match_on-Leaves sys (Quiet sys) (Guards options)
          (drop_path_guard sys (path_guard path options known) s) _
          (drop_path_guard-Leaves options known s k) (λ r t h. h)

    bind-Guards :
        (fuel : ℕ) (options : ListenerOptions) (s : State sys)
        → IsCareful s.calls
        → Leaves sys (Guards options) (bind sys fuel path options s)
    unfolding bind bind_socket
    bind-Guards fuel options s h =
        and_then-Leaves sys Bound (Guards options)
          (bind_loop sys fuel path options (sys.now s.world) false s) _
          (bind_loop-Leaves fuel options (sys.now s.world) false s h)
          (λ socket t b.
            and_then-Leaves sys Sees (Guards options) (socket_metadata sys path t) _
              (socket_metadata-Sees t b.1.0 b.1.1 b.0)
              (λ known u k.
                match_on-Leaves sys (Known known) (Guards options)
                  (start_listening sys path options socket known u) _
                  (start_listening-Knows options socket known u k)
                  (with_guard-Guards options known))
              (λ e calls q. q))
          (λ e calls q. q)

  -- Whatever the system answers and other processes do meanwhile, a listener that is bound and dropped
  -- removes a file only if it was a socket that refused a connection and was the same file before and
  -- after, or if it is the socket that the process itself bound, as was seen right before.
  pub bind_and_drop-IsCareful :
      (path : Bytes) (options : ListenerOptions) (fuel : ℕ) (s : State sys)
      → IsCareful s.calls
      → IsCareful (calls_of sys (bind_and_drop sys fuel path options s))
  unfolding bind_and_drop
  bind_and_drop-IsCareful path options fuel s h = calls_of-IsCareful sys _ (
      and_then-Leaves sys (Guards path options) (Quiet sys) (bind sys fuel path options s) _
        (bind-Guards path fuel options s h)
        (λ l t g.
          subst (λ guard. Leaves sys (Quiet sys) (drop_path_guard sys guard t)) (sym g.1)
            (drop_path_guard-Leaves path options g.0 t g.2))
        (λ e calls q. q))
