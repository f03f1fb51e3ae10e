-- ===== src/Transport/Windows/Instances.antt =====
-- src/transport/windows.rs, `Listener`: an instance of the pipe waits for the next client. The calls of
-- Windows answer and leave a world; the stream of a client is a new one on its instance.
pub mod Waiting
use kode_bridge.Base.{
  ℕ, zero, suc, ◌+◌, ◌-◌, ◌*◌, ◌≤◌, ◌<◌, ◌≡◌, ◌≢◌, ◌↔◌, ◌⊎◌, refl, sym, ap, subst, inl, inr, ◌∙◌,
  String, Bool, true, false, not, ◌&&◌, ◌||◌, ltb, leb, ◌==◌, List, [], ◌∷◌, ◌++◌, All, length,
  take, drop, drop-length, length-append, Option, none, some, if◌then◌else◌, Bool-cases,
  Option-cases, arith, max, min,
}
use kode_bridge.Bytes.{Bytes}
use kode_bridge.Transport.{
  IoError, IoResult, done, fails, io_error, other, ListenerOptions, IoResult-cases,
}

pub record ServerOptions : Type 0 where
  pub first_pipe_instance : Bool
  pub reject_remote_clients : Bool
  pub in_buffer_size : ℕ
  pub out_buffer_size : ℕ
  pub security_descriptor : Option ℕ

pub record Pipes : Type 1 where
  pub World : Type 0
  pub Instance : Type 0
  pub create : ServerOptions → Bytes → World → IoResult Instance × World
  pub connect : Instance → World → IoResult (Unit {0}) × World

unfoldable pub server_options : ListenerOptions → Bool → ServerOptions
server_options options first = record {
  first_pipe_instance = first;
  reject_remote_clients = true;
  in_buffer_size = 512;
  out_buffer_size = 512;
  security_descriptor = options.security_descriptor;
}

module _ (sys : Pipes) where
  open sys use {World, Instance}

  unfoldable pub create_instance :
      Bytes → ListenerOptions → Bool → World → IoResult Instance × World
  create_instance path options first = sys.create (server_options options first) path

  pub record Listener : Type 0 where
    pub path : Bytes
    pub options : ListenerOptions
    pub pending : Option Instance

  unfoldable pub listener_on :
      Bytes → ListenerOptions → IoResult Instance × World → IoResult Listener × World
  listener_on path options (done instance_, w) =
      (done (record { path = path; options = options; pending = some instance_ }), w)
  listener_on path options (fails e, w) = (fails e, w)

  unfoldable pub bind : Bytes → ListenerOptions → World → IoResult Listener × World
  bind path options w = listener_on path options (create_instance path options true w)

  -- What a call of `accept` gives and leaves.
  pub record Accepted : Type 0 where
    pub result : IoResult Instance
    pub listener : Listener
    pub world : World

  -- `self.pending.replace(next)`
  unfoldable pub replace_pending : Listener → IoResult Instance × World → Accepted
  replace_pending listener (fails e, w) = record {
    result = fails e;
    listener = listener;
    world = w;
  }
  replace_pending listener (done next, w) = record {
    result = elim listener.pending [
      | none ↦ io_error other "named pipe listener is unavailable"
      | some connected ↦ done connected
    ];
    listener = record listener { pending = some next };
    world = w;
  }

  unfoldable pub on_connected : Listener → IoResult (Unit {0}) × World → Accepted
  on_connected listener (fails e, w) = record { result = fails e; listener = listener; world = w }
  on_connected listener (done v, w) =
      replace_pending listener (create_instance listener.path listener.options false w)

  unfoldable pub accept : Listener → World → Accepted
  accept listener w = elim listener.pending [
    | none ↦ record {
      result = io_error other "named pipe listener is unavailable";
      listener = listener;
      world = w;
    }
    | some instance_ ↦ on_connected listener (sys.connect instance_ w)
  ]

  -- What a number of calls of `accept` gives, one after another, whether they fail or not.
  pub record Tally : Type 0 where
    pub accepted : List Instance
    pub listener : Listener
    pub world : World

  unfoldable pub add_accepted : IoResult Instance → List Instance → List Instance
  add_accepted (done instance_) accepted = accepted ++ instance_ ∷ []
  add_accepted (fails e) accepted = accepted

  unfoldable pub serve : ℕ → Tally → Tally
  serve zero s = s
  serve (suc n) s =
      let a = accept s.listener s.world in
      serve n (record {
        accepted = add_accepted a.result s.accepted;
        listener = a.listener;
        world = a.world;
      })
