-- ===== src/StreamServer/Order.antt =====
-- src/ipc_stream_server.rs, `handle_stream_client`: what reaches a client, and in which order.
use kode_bridge.Base.{ℕ, ◌+◌, ◌≤◌, ◌≡◌, ◌⊎◌, List, [], ◌++◌, All, length, u64}
use kode_bridge.Bytes.{Bytes}
use kode_bridge.StreamServer.Failure.{messages}
use kode_bridge.StreamServer.Delivery.{StreamServerConfig, broken, Delivered}

module _ (config : StreamServerConfig) where
  -- The client has the first of the messages that it is due, in order, and all of them unless a write
  -- failed; none is larger than the limit; each is counted, and one error at most.
  pub record IsDelivered (sent_messages total_errors : ℕ) (due_messages : List Bytes)
      (d : Delivered) : Type 0 where
    pub left : List Bytes
    pub in_order : messages d.writes ++ left ≡ due_messages
    pub complete : (left ≡ []) ⊎ (d.ending ≡ broken)
    pub small : All (λ b. length b ≤ config.max_message_size) (messages d.writes)
    pub counted : u64 d.client.messages_sent ≡ u64 (sent_messages + length (messages d.writes))
    pub errors :
        (d.total_errors ≡ total_errors)
        ⊎ ((d.total_errors ≡ u64 (total_errors + 1)) × (d.ending ≡ broken))
