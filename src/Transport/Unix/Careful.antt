-- ===== src/Transport/Unix/Careful.antt =====
-- src/transport/unix.rs: which files the listener removes.
use kode_bridge.Base.{
  ◌≡◌, refl, sym, ap, ◌∙◌, subst, Bool, true, false, not, ◌||◌, List, [], ◌∷◌, if◌then◌else◌, arith,
}
use kode_bridge.Bytes.{Bytes}
use kode_bridge.Transport.{IoError, IoResult, done, fails, is_connection_refused}
use kode_bridge.Transport.Unix.{
  Metadata, System, Event, binds, inspects, connects, removes, same_file, State, Run, returns,
  out_of_fuel, Cmd, calls_of, and_then, match_on, remove_unchanged, on_connected,
  reclaim_stale_socket, symlink_metadata, connect,
}

abbrev pub is_removal : Event → Bool
is_removal (removes r) = true
is_removal _ = false

-- The file of `metadata` is the one that was seen first after a binding that succeeded.
pub data IsOwn (metadata : Metadata) : List Event → Type 0 where
  seen :
      (first : Metadata) (calls : List Event)
      → same_file first metadata ≡ true
      → IsOwn metadata (inspects (done first) ∷ binds (done tt) ∷ calls)
  later : (call : Event) (calls : List Event) → IsOwn metadata calls → IsOwn metadata (call ∷ calls)

-- Each removal is that of a socket which refused a connection and was the same file before and
-- after it, or that of the process's own socket, as was seen right before.
pub data IsCareful : List Event → Type 0 where
  nothing : IsCareful []
  keeps :
      (call : Event) (calls : List Event)
      → is_removal call ≡ false
      → IsCareful calls
      → IsCareful (call ∷ calls)
  reclaims :
      (before after : Metadata) (e : IoError) (answer : IoResult (Unit {0})) (calls : List Event)
      → before.is_socket ≡ true
      → is_connection_refused e.kind ≡ true
      → same_file before after ≡ true
      → after.is_socket ≡ true
      → IsCareful calls
      → IsCareful (
          removes answer
          ∷ inspects (done after)
          ∷ connects (fails e)
          ∷ inspects (done before)
          ∷ calls)
  cleans_up :
      (metadata : Metadata) (answer : IoResult (Unit {0})) (calls : List Event)
      → metadata.is_socket ≡ true
      → IsOwn metadata calls
      → IsCareful calls
      → IsCareful (removes answer ∷ inspects (done metadata) ∷ calls)

module _ (sys : System) where
  module _ {A : Type 0} where
    -- What holds of the result of a command and of its calls.
    abbrev pub Leaves : (IoResult A → List Event → Type 0) → Run sys A → Type 0
    Leaves P (returns r s) = P r s.calls
    Leaves P (out_of_fuel s) = IsCareful s.calls

    abbrev pub Quiet : IoResult A → List Event → Type 0
    Quiet r calls = IsCareful calls

    pub if-Leaves :
        (P : IoResult A → List Event → Type 0) (b : Bool) (x y : Cmd sys A) (s : State sys)
        → (b ≡ true → Leaves P (x s))
        → (b ≡ false → Leaves P (y s))
        → Leaves P ((if b then x else y) s)
    if-Leaves P true x y s hx hy = hx refl
    if-Leaves P false x y s hx hy = hy refl

    pub calls_of-IsCareful : (run : Run sys A) → Leaves Quiet run → IsCareful (calls_of sys run)
    calls_of-IsCareful (returns r s) h = h
    calls_of-IsCareful (out_of_fuel s) h = h

  module _ {A B : Type 0} (P : IoResult A → List Event → Type 0)
      (Q : IoResult B → List Event → Type 0) where
    pub match_on-Leaves :
        (run : Run sys A) (k : IoResult A → Cmd sys B)
        → Leaves P run
        → ((r : IoResult A) (s : State sys) → P r s.calls → Leaves Q (k r s))
        → Leaves Q (match_on sys run k)
    match_on-Leaves (returns r s) k h hk = hk r s h
    match_on-Leaves (out_of_fuel s) k h hk = h

    pub and_then-Leaves :
        (run : Run sys A) (k : A → Cmd sys B)
        → Leaves P run
        → ((a : A) (s : State sys) → P (done a) s.calls → Leaves Q (k a s))
        → ((e : IoError) (calls : List Event) → P (fails e) calls → Q (fails e) calls)
        → Leaves Q (and_then sys run k)
    and_then-Leaves (returns (done a) s) k h hk he = hk a s h
    and_then-Leaves (returns (fails e) s) k h hk he = he e s.calls h
    and_then-Leaves (out_of_fuel s) k h hk he = h

  -- One more call that is no removal.
  abbrev pub Noted :
      {A : Type 0} → (IoResult A → Event) → List Event → IoResult A → List Event → Type 0
  Noted event calls r after = after ≡ event r ∷ calls

  module _ (path : Bytes) where
    remove_unchanged-Leaves :
        (before : Metadata) (e : IoError) (s : State sys) (calls : List Event)
        → before.is_socket ≡ true
        → is_connection_refused e.kind ≡ true
        → s.calls ≡ connects (fails e) ∷ inspects (done before) ∷ calls
        → IsCareful calls
        → Leaves Quiet (remove_unchanged sys path before s)
    unfolding remove_unchanged
    remove_unchanged-Leaves before e s calls sock refused log h =
        let quiet =
          subst IsCareful (sym log)
            (keeps (connects (fails e)) _ refl (keeps (inspects (done before)) _ refl h)) in
        and_then-Leaves (Noted inspects s.calls) Quiet (symlink_metadata sys path s) _ refl
          (λ after t q.
            if-Leaves Quiet (not (same_file before after) || not after.is_socket) _ _ t
              (λ b. subst IsCareful (sym q) (keeps (inspects (done after)) _ refl quiet))
              (λ b.
                subst IsCareful
                  (ap (◌∷◌ (removes (sys.remove_file path t.world).0))
                    (ap (◌∷◌ (inspects (done after))) (sym log) ∙ sym q))
                  (reclaims before after e _ calls sock refused (ground arith) (ground arith) h)))
          (λ failure after q.
            subst IsCareful (sym q) (keeps (inspects (fails failure)) _ refl quiet))

    on_connected-Leaves :
        (before : Metadata) (r : IoResult (Unit {0})) (s : State sys) (calls : List Event)
        → before.is_socket ≡ true
        → s.calls ≡ connects r ∷ inspects (done before) ∷ calls
        → IsCareful calls
        → Leaves Quiet (on_connected sys path before r s)
    unfolding on_connected
    on_connected-Leaves before (done v) s calls sock log h =
        subst IsCareful (sym log)
          (keeps (connects (done v)) _ refl (keeps (inspects (done before)) _ refl h))
    on_connected-Leaves before (fails e) s calls sock log h =
        if-Leaves Quiet (is_connection_refused e.kind) _ _ s
          (λ refused. remove_unchanged-Leaves before e s calls sock refused log h)
          (λ b.
            subst IsCareful (sym log)
              (keeps (connects (fails e)) _ refl (keeps (inspects (done before)) _ refl h)))

    pub reclaim_stale_socket-Leaves :
        (s : State sys) → IsCareful s.calls → Leaves Quiet (reclaim_stale_socket sys path s)
    unfolding reclaim_stale_socket
    reclaim_stale_socket-Leaves s h =
        and_then-Leaves (Noted inspects s.calls) Quiet (symlink_metadata sys path s) _ refl
          (λ before t q.
            if-Leaves Quiet (not before.is_socket) _ _ t
              (λ b. subst IsCareful (sym q) (keeps (inspects (done before)) _ refl h))
              (λ b.
                match_on-Leaves (Noted connects t.calls) Quiet (connect sys path t)
                  (on_connected sys path before) refl
                  (λ r u p.
                    on_connected-Leaves before r u s.calls (ground arith)
                      (p ∙ ap (◌∷◌ (connects r)) q) h)))
          (λ e after q. subst IsCareful (sym q) (keeps (inspects (fails e)) _ refl h))
