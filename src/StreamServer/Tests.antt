-- ===== src/StreamServer/Tests.antt =====
-- A source and a client of the stream server, and the theorems applied there.
use Prim.Native.Nat.{◌/◌}
use kode_bridge.Base.{ℕ, ◌*◌, ◌≡◌, refl, true, false, some, List, [], ◌∷◌, ◌++◌, ltb}
use kode_bridge.Errors.{stream_closed, ok, err}
use kode_bridge.Bytes.{bytes}
use kode_bridge.Metrics.Trackers.{Floats}
use kode_bridge.Server.Connection.{sent, send_timed_out}
use kode_bridge.StreamServer.Messages.{
  StreamMessage, json, text, ping, close, broadcast_of, to_bytes, ends_with_newline, data_bytes,
  close_all,
}
use kode_bridge.StreamServer.Source.{Round, broadcasts_of}
use kode_bridge.StreamServer.Delivery.{
  StreamServerConfig, Event, received, keepalive_due, Delivered, message, keepalive,
  handle_stream_client, client_loop, end_task, wrote, count_message, count_errors,
}
use kode_bridge.Base.{arith}
use kode_bridge.Pool.Counter.{counter}
use kode_bridge.StreamServer.Registry.{
  Server, new_server, spawn, acquires, accepts, accepting, Reach, start, next,
}
use kode_bridge.StreamServer.Registry.Entries.{IsRegistered, Reach-IsRegistered}

-- Whole numbers in place of floating point.
abbrev whole : Floats
whole = record {
  Float = ℕ;
  float_zero = 0;
  from_nat = λ n. n;
  as_secs = λ ns. ns / 1_000_000_000;
  divide = λ a b. a / b;
  exceeds = λ a b. ltb b a;
  rank = λ n p. n * p / 100;
}

abbrev sent_bytes : List StreamMessage
sent_bytes = text (bytes "hi") ∷ json (some (bytes "1")) ∷ close ∷ []

broadcast_bytes :
    broadcasts_of sent_bytes
    ≡ data_bytes (bytes "hi" ++ 10 ∷ []) ∷ data_bytes (bytes "1" ++ 10 ∷ []) ∷ close_all ∷ []
unfolding broadcasts_of broadcast_of to_bytes ends_with_newline
broadcast_bytes = refl

-- A round fails, the next has two messages, and a third is beyond the end of the source.
abbrev rounds : List Round
rounds =
    record { messages = err stream_closed; has_more = true }
    ∷ record { messages = ok (ping ∷ close ∷ []); has_more = false }
    ∷ record { messages = ok (ping ∷ []); has_more = true }
    ∷ []

abbrev clock : ℕ → ℕ
clock n = n * 1_000_000_000

abbrev config : StreamServerConfig
config = record { max_message_size = 3; keepalive_interval = 30 }

-- A message, one that is too large, a keepalive, and a message whose write times out.
abbrev events : List Event
events =
    received (bytes "one") sent 1
    ∷ received (bytes "three") sent 2
    ∷ keepalive_due 32 sent
    ∷ received (bytes "two") send_timed_out 33
    ∷ received (bytes "ten") sent 34
    ∷ []

abbrev delivered : Delivered
delivered = handle_stream_client config 0 0 9 events

delivered_writes :
    (delivered.writes ≡ message (bytes "one") ∷ keepalive ∷ []) × (delivered.total_errors ≡ 10)
unfolding handle_stream_client client_loop end_task wrote count_message count_errors
delivered_writes = (refl, refl)

-- A server for two clients, with a permit in the hand of its accept loop.
abbrev held : Server counter whole
held = record (new_server counter whole 2 0) { semaphore = 1; phase = accepting }

abbrev with_client : Server counter whole
with_client = spawn counter whole 4 held

with_client-Reach : Reach counter whole 2 0 1 with_client
unfolding new_server
with_client-Reach =
    next (next start (acquires (new_server counter whole 2 0) 1 refl refl)) (accepts 4 held refl)

Reach-IsRegistered_example : IsRegistered counter whole 2 1 with_client
Reach-IsRegistered_example = Reach-IsRegistered counter whole 2 with_client-Reach (omega arith)
