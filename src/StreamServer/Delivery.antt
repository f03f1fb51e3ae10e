-- ===== src/StreamServer/Delivery.antt =====
-- src/ipc_stream_server.rs, `handle_stream_client`: the task of a client. An event is what the task
-- waits for: a message of the broadcast channel or a keepalive, with how the write for it ends.
use kode_bridge.Base.{ℕ, ◌+◌, ◌-◌, List, [], ◌∷◌, length, u64, ltb, leb, if◌then◌else◌}
use kode_bridge.Bytes.{Bytes}
use kode_bridge.Server.Connection.{Sent, sent, send_failed, send_timed_out}

-- The fields of `StreamServerConfig` that the task reads.
pub record StreamServerConfig : Type 0 where
  pub max_message_size : ℕ
  pub keepalive_interval : ℕ

pub record StreamClient : Type 0 where
  pub connected_at : ℕ
  pub last_activity : ℕ
  pub messages_sent : ℕ
  pub error_count : ℕ

unfoldable pub new_client : ℕ → StreamClient
new_client now = record {
  connected_at = now;
  last_activity = now;
  messages_sent = 0;
  error_count = 0;
}

pub data Event : Type 0 where
  received : Bytes → Sent → ℕ → Event
  received_close channel_closed : Event
  lagged : ℕ → Event
  keepalive_due : ℕ → Sent → Event

-- What the task wrote in full.
pub data Written : Type 0 where
  message : Bytes → Written
  keepalive : Written

-- The task waits, has ended with the channel, or has ended because a write failed.
pub data Ending : Type 0 where
  waiting finished broken : Ending

-- The entry of the client in the registry is there while its task runs.
pub record Delivered : Type 0 where
  pub client : StreamClient
  pub total_errors : ℕ
  pub writes : List Written
  pub ending : Ending

unfoldable pub count_message : ℕ → StreamClient → StreamClient
count_message now c = record c { messages_sent = u64 (c.messages_sent + 1); last_activity = now }

unfoldable pub count_errors : ℕ → StreamClient → StreamClient
count_errors n c = record c { error_count = u64 (c.error_count + n) }

unfoldable pub end_task : Ending → StreamClient → ℕ → Delivered
end_task ending c total_errors = record {
  client = c;
  total_errors = total_errors;
  writes = [];
  ending = ending;
}

unfoldable pub wrote : Written → Delivered → Delivered
wrote w later = record later { writes = w ∷ later.writes }

module _ (config : StreamServerConfig) where
  -- `last` is the time of the last keepalive.
  unfoldable pub client_loop : ℕ → StreamClient → ℕ → List Event → Delivered
  client_loop last c total_errors [] = end_task waiting c total_errors
  client_loop last c total_errors (received_close ∷ es) = end_task finished c total_errors
  client_loop last c total_errors (channel_closed ∷ es) = end_task finished c total_errors
  client_loop last c total_errors (lagged skipped ∷ es) =
      client_loop last (count_errors skipped c) total_errors es
  client_loop last c total_errors (received bytes sent now ∷ es) =
      let skipped = client_loop last c total_errors es in
      let later = client_loop last (count_message now c) total_errors es in
      if ltb config.max_message_size (length bytes) then skipped else wrote (message bytes) later
  client_loop last c total_errors (received bytes (send_failed e) now ∷ es) =
      let skipped = client_loop last c total_errors es in
      if ltb config.max_message_size (length bytes)
      then skipped
      else end_task broken (count_errors 1 c) (u64 (total_errors + 1))
  client_loop last c total_errors (received bytes send_timed_out now ∷ es) =
      let skipped = client_loop last c total_errors es in
      if ltb config.max_message_size (length bytes)
      then skipped
      else end_task broken (count_errors 1 c) (u64 (total_errors + 1))
  client_loop last c total_errors (keepalive_due now sent ∷ es) =
      let early = client_loop last c total_errors es in
      let later = client_loop now c total_errors es in
      if leb config.keepalive_interval (now - last) then wrote keepalive later else early
  client_loop last c total_errors (keepalive_due now (send_failed e) ∷ es) =
      let early = client_loop last c total_errors es in
      if leb config.keepalive_interval (now - last) then end_task broken c total_errors else early
  client_loop last c total_errors (keepalive_due now send_timed_out ∷ es) =
      let early = client_loop last c total_errors es in
      if leb config.keepalive_interval (now - last) then end_task broken c total_errors else early

  unfoldable pub handle_stream_client : ℕ → ℕ → ℕ → List Event → Delivered
  handle_stream_client connected now total_errors events =
      client_loop now (new_client connected) total_errors events
