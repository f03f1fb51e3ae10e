-- ===== src/StreamServer/Messages.antt =====
-- src/ipc_stream_server.rs: `StreamMessage` and the bytes that it is sent as. A JSON value is what
-- serde_json makes of it, if it can.
use kode_bridge.Base.{Bool, false, Option, none, some, [], ◌∷◌, ◌++◌, ◌==◌, if◌then◌else◌}
use kode_bridge.Bytes.{Bytes, bytes}

pub data StreamMessage : Type 0 where
  json : Option Bytes → StreamMessage
  text binary : Bytes → StreamMessage
  ping close : StreamMessage

unfoldable pub ends_with_newline : Bytes → Bool
ends_with_newline [] = false
ends_with_newline (c ∷ []) = c == 10
ends_with_newline (c ∷ d ∷ cs) = ends_with_newline (d ∷ cs)

unfoldable pub to_bytes : StreamMessage → Bytes
to_bytes (json (some value)) = value ++ 10 ∷ []
to_bytes (json none) = bytes "{}" ++ 10 ∷ []
to_bytes (text t) = if ends_with_newline t then t else t ++ 10 ∷ []
to_bytes (binary b) = b
to_bytes ping = bytes "PING" ++ 10 ∷ []
to_bytes close = bytes "CLOSE" ++ 10 ∷ []

pub data BroadcastMessage : Type 0 where
  data_bytes : Bytes → BroadcastMessage
  close_all : BroadcastMessage

-- `From<StreamMessage>`
unfoldable pub broadcast_of : StreamMessage → BroadcastMessage
broadcast_of close = close_all
broadcast_of (json value) = data_bytes (to_bytes (json value))
broadcast_of (text t) = data_bytes (to_bytes (text t))
broadcast_of (binary b) = data_bytes (to_bytes (binary b))
broadcast_of ping = data_bytes (to_bytes ping)
