-- ===== src/Transport/Windows/Instances/Waiting.antt =====
-- src/transport/windows.rs, `Listener`: one instance always waits, and each goes to one client.
use kode_bridge.Base.{
  ℕ, zero, suc, ◌≡◌, refl, sym, ap, subst, ◌∙◌, true, false, List, [], ◌∷◌, ◌++◌, Option, none,
  some,
}
use kode_bridge.Bytes.{Bytes}
use kode_bridge.Transport.{IoError, IoResult, done, fails, ListenerOptions}
use kode_bridge.Transport.Windows.Instances.{
  Pipes, ServerOptions, create_instance, Listener, listener_on, bind, Accepted, replace_pending,
  on_connected, accept, Tally, add_accepted, serve,
}

-- Windows, with the instances that it made, in their order: a creation that succeeds makes one, and
-- nothing else does.
pub record IsMaking (sys : Pipes) (made : sys.World → List sys.Instance) : Type 0 where
  pub makes :
      (options : ServerOptions) (path : Bytes) (w v : sys.World) (i : sys.Instance)
      → sys.create options path w ≡ (done i, v)
      → made v ≡ made w ++ i ∷ []
  pub makes_none :
      (options : ServerOptions) (path : Bytes) (w v : sys.World) (e : IoError)
      → sys.create options path w ≡ (fails e, v)
      → made v ≡ made w
  pub waits : (i : sys.Instance) (w : sys.World) → made (sys.connect i w).1 ≡ made w

module _ (sys : Pipes) (made : sys.World → List sys.Instance) (making : IsMaking sys made) where
  open sys use {World, Instance}

  -- The instances that were made are those that went to clients, in that order, and the one that waits.
  pub record IsWaiting (s : Tally sys) : Type 0 where
    pub instance_ : Instance
    pub waits : s.listener.pending ≡ some instance_
    pub order : made s.world ≡ s.accepted ++ instance_ ∷ []

  abbrev after : List Instance → Accepted sys → Tally sys
  after accepted a = record {
    accepted = add_accepted sys a.result accepted;
    listener = a.listener;
    world = a.world;
  }

  taken :
      (o : Option Instance) (accepted : List Instance) (i : Instance) (error : IoResult Instance)
      → o ≡ some i
      → add_accepted sys (elim o [ none ↦ error | some connected ↦ done connected ]) accepted
        ≡ accepted ++ i ∷ []
  unfolding add_accepted
  taken none accepted i error e = cc
  taken (some j) accepted i error e = ap (λ k. accepted ++ k ∷ []) cc

  replace_pending-IsWaiting :
      (listener : Listener sys) (accepted : List Instance) (i : Instance) (w : World)
      → listener.pending ≡ some i
      → made w ≡ accepted ++ i ∷ []
      → (r : IoResult Instance) (v : World)
      → create_instance sys listener.path listener.options false w ≡ (r, v)
      → IsWaiting (after accepted (replace_pending sys listener (r, v)))
  unfolding create_instance replace_pending add_accepted
  replace_pending-IsWaiting listener accepted i w p m (fails e) v c = record {
    instance_ = i;
    waits = p;
    order = making.makes_none _ _ w v e c ∙ m;
  }
  replace_pending-IsWaiting listener accepted i w p m (done next) v c = record {
    instance_ = next;
    waits = refl;
    order =
        making.makes _ _ w v next c
        ∙ ap (λ l. l ++ next ∷ []) (m ∙ sym (taken listener.pending accepted i _ p));
  }

  on_connected-IsWaiting :
      (listener : Listener sys) (accepted : List Instance) (i : Instance)
      → listener.pending ≡ some i
      → (answer : IoResult (Unit {0})) (v : World) → made v ≡ accepted ++ i ∷ []
      → IsWaiting (after accepted (on_connected sys listener (answer, v)))
  unfolding on_connected add_accepted
  on_connected-IsWaiting listener accepted i p (fails e) v m = record {
    instance_ = i;
    waits = p;
    order = m;
  }
  on_connected-IsWaiting listener accepted i p (done u) v m =
      let c = create_instance sys listener.path listener.options false v in
      replace_pending-IsWaiting listener accepted i v p m c.0 c.1 refl

  accept-pending :
      (path : Bytes) (options : ListenerOptions) (o : Option Instance) (i : Instance) (w : World)
      → o ≡ some i
      → let l : Listener sys = record { path = path; options = options; pending = o } in
        accept sys l w ≡ on_connected sys l (sys.connect i w)
  unfolding accept
  accept-pending path options none i w e = cc
  accept-pending path options (some j) i w e =
      let l : Listener sys = record { path = path; options = options; pending = some j } in
      let same : j ≡ i = cc in ap (λ k. on_connected sys l (sys.connect k w)) same

  accept-IsWaiting :
      (s : Tally sys) → IsWaiting s → IsWaiting (after s.accepted (accept sys s.listener s.world))
  accept-IsWaiting s i =
      let l = s.listener in
      let c = sys.connect i.instance_ s.world in
      subst (λ a. IsWaiting (after s.accepted a))
        (sym (accept-pending l.path l.options l.pending i.instance_ s.world i.waits))
        (on_connected-IsWaiting l s.accepted i.instance_ i.waits c.0 c.1
          (making.waits i.instance_ s.world ∙ i.order))

  abbrev pending_of : IoResult (Listener sys) → Option Instance
  pending_of (done l) = l.pending
  pending_of (fails e) = none

  bind-IsWaiting :
      (path : Bytes) (options : ListenerOptions) (w : World) (r : IoResult Instance) (u : World)
      → made w ≡ []
      → create_instance sys path options true w ≡ (r, u)
      → (listener : Listener sys) (v : World)
      → listener_on sys path options (r, u) ≡ (done listener, v)
      → IsWaiting (record { accepted = []; listener = listener; world = v })
  unfolding create_instance listener_on
  bind-IsWaiting path options w (fails e) u m c listener v q = cc
  bind-IsWaiting path options w (done i) u m c listener v q = record {
    instance_ = i;
    waits = ap (λ x. pending_of x.0) (sym q);
    order = ap made (sym (ap (λ x. x.1) q)) ∙ making.makes _ _ w u i c ∙ ap (λ l. l ++ i ∷ []) m;
  }

  serve-IsWaiting : (n : ℕ) (s : Tally sys) → IsWaiting s → IsWaiting (serve sys n s)
  unfolding serve
  serve-IsWaiting zero s i = i
  serve-IsWaiting (suc n) s i =
      serve-IsWaiting n (after s.accepted (accept sys s.listener s.world)) (accept-IsWaiting s i)

  -- However many calls of `accept` a new listener takes, and whichever of them fail, one instance of the
  -- pipe waits for a client afterwards, and the others that were made went to one client each, in the
  -- order in which they were made.
  pub bind_and_serve-IsWaiting :
      (path : Bytes) (options : ListenerOptions) (w v : World) (listener : Listener sys) (n : ℕ)
      → made w ≡ []
      → bind sys path options w ≡ (done listener, v)
      → IsWaiting (serve sys n (record { accepted = []; listener = listener; world = v }))
  unfolding bind
  bind_and_serve-IsWaiting path options w v listener n m e =
      serve-IsWaiting n (record { accepted = []; listener = listener; world = v })
        (bind-IsWaiting path options w (create_instance sys path options true w).0
          (create_instance sys path options true w).1 m refl listener v e)
