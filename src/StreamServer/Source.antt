-- ===== src/StreamServer/Source.antt =====
-- src/ipc_stream_server.rs: the statistics of the server and the task that broadcasts the messages of
-- a source. Floating point is that of `Metrics`. A round is what `next_messages` comes to and whether
-- the source has more after it.
use kode_bridge.Base.{
  ℕ, ◌+◌, ◌-◌, Bool, true, false, List, [], ◌∷◌, ◌++◌, length, u64, ltb, if◌then◌else◌,
}
use kode_bridge.Errors.{Result, ok, err}
use kode_bridge.Metrics.Trackers.{Floats}
use kode_bridge.StreamServer.Messages.{StreamMessage, BroadcastMessage, broadcast_of}

pub record Round : Type 0 where
  pub messages : Result (List StreamMessage)
  pub has_more : Bool

unfoldable pub broadcasts_of : List StreamMessage → List BroadcastMessage
broadcasts_of [] = []
broadcasts_of (x ∷ xs) = broadcast_of x ∷ broadcasts_of xs

-- `IteratorSource` over a stream of these messages: a round for each, and one that exhausts it.
unfoldable pub iterator_rounds : List StreamMessage → List Round
iterator_rounds [] = record { messages = ok []; has_more = false } ∷ []
iterator_rounds (x ∷ xs) = record { messages = ok (x ∷ []); has_more = true } ∷ iterator_rounds xs

module _ (f : Floats) where
  open f use {Float, float_zero, from_nat, as_secs, divide, exceeds}

  pub record StreamServerStats : Type 0 where
    pub total_connections : ℕ
    pub active_connections : ℕ
    pub total_messages : ℕ
    pub total_errors : ℕ
    pub messages_per_second : Float
    pub last_update : ℕ

  unfoldable pub new_stats : ℕ → StreamServerStats
  new_stats now = record {
    total_connections = 0;
    active_connections = 0;
    total_messages = 0;
    total_errors = 0;
    messages_per_second = float_zero;
    last_update = now;
  }

  unfoldable pub update_message_rate : ℕ → ℕ → StreamServerStats → StreamServerStats
  update_message_rate now message_count s =
      let duration = as_secs (now - s.last_update) in
      record s {
        messages_per_second =
            if exceeds duration float_zero
            then divide (from_nat message_count) duration
            else s.messages_per_second;
        total_messages = u64 (s.total_messages + message_count);
        last_update = now;
      }

  unfoldable pub count_source_error : StreamServerStats → StreamServerStats
  count_source_error s = record s { total_errors = u64 (s.total_errors + 1) }

  -- What a round leaves of the statistics, and what it sends to the channel.
  unfoldable pub source_round :
      ℕ
      → Result (List StreamMessage)
      → StreamServerStats
      → StreamServerStats × List BroadcastMessage
  source_round now (err e) s = (count_source_error s, [])
  source_round now (ok messages) s = (
    if ltb 0 (length messages) then update_message_rate now (length messages) s else s,
    broadcasts_of messages,
  )

  abbrev with_sent :
      List BroadcastMessage
      → StreamServerStats × List BroadcastMessage
      → StreamServerStats × List BroadcastMessage
  with_sent sent (s, later) = (s, sent ++ later)

  -- The rounds until the source is exhausted, or as many as there are; `clock n` is the time after the
  -- n-th of them.
  unfoldable pub source_loop :
      (ℕ → ℕ) → ℕ → StreamServerStats → List Round → StreamServerStats × List BroadcastMessage
  source_loop clock n s [] = (s, [])
  source_loop clock n s (r ∷ rounds) =
      let (s', sent) = source_round (clock n) r.messages s in
      let later = source_loop clock (n + 1) s' rounds in
      if r.has_more then with_sent sent later else (s', sent)
