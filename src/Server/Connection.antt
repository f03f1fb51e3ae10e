-- ===== src/Server/Connection.antt =====
-- src/ipc_http_server.rs: `handle_connection`. A turn is what one round of its loop meets: what
-- arrives, what the handler comes to if one is called, and how the reply is written; the timeouts of
-- the source show as its answers. Requests arrive decoded, and the replies that were written in full
-- are recorded in order.
pub mod Order
use kode_bridge.Base.{
  ℕ, zero, suc, ◌+◌, Bool, true, false, Option, none, some, List, [], ◌∷◌, ◌++◌, leb, fetch_inc,
  if◌then◌else◌,
}
use kode_bridge.Errors.{KodeBridgeError, timeout_msg, Result, ok, err}
use kode_bridge.Bytes.{Bytes, bytes}
use kode_bridge.Codec.{Http, HttpResponse, ParsedRequest}
use kode_bridge.Server.Replies.{error_reply, not_found, internal_error}

pub record SharedStats : Type 0 where
  pub total_connections : ℕ
  pub active_connections : ℕ
  pub total_requests : ℕ
  pub total_responses : ℕ
  pub total_errors : ℕ

unfoldable pub new_stats : SharedStats
new_stats = record {
  total_connections = 0;
  active_connections = 0;
  total_requests = 0;
  total_responses = 0;
  total_errors = 0;
}

unfoldable pub count_request : SharedStats → SharedStats
count_request s = record s { total_requests = fetch_inc s.total_requests }

unfoldable pub count_response : SharedStats → SharedStats
count_response s = record s { total_responses = fetch_inc s.total_responses }

unfoldable pub count_error : SharedStats → SharedStats
count_error s = record s { total_errors = fetch_inc s.total_errors }

pub data Sent : Type 0 where
  sent : Sent
  send_failed : KodeBridgeError → Sent
  send_timed_out : Sent

-- A connection that has ended, or that waits for what its next turn brings.
pub data Ending : Type 0 where
  waiting : Ending
  ended : Result (Unit {0}) → Ending

-- The task of `serve` around a connection: an error is counted.
unfoldable pub count_ending : Ending → SharedStats → SharedStats
count_ending (ended (err e)) s = count_error s
count_ending _ s = s

module _ (h : Http) where
  -- What `framed.next()` gives under the read timeout.
  pub data Arrival : Type 0 where
    closed : Arrival
    read_timed_out : Arrival
    malformed : KodeBridgeError → Arrival
    arrived : ParsedRequest h → Arrival

  -- What a handler comes to under the write timeout.
  pub data Handled : Type 0 where
    answered : HttpResponse h → Handled
    handler_failed : KodeBridgeError → Handled
    handler_timed_out : Handled

  pub record Turn : Type 0 where
    pub arrival : Arrival
    pub handled : Handled
    pub writing : Sent

  pub record Served : Type 0 where
    pub stats : SharedStats
    pub replies : List (HttpResponse h)
    pub ending : Ending

  -- The connection stops here.
  unfoldable pub stop : SharedStats → Result (Unit {0}) → Served
  stop stats result = record { stats = stats; replies = []; ending = ended result }

  -- The connection goes on after a reply that was written.
  unfoldable pub replied : HttpResponse h → Served → Served
  replied response later = record later { replies = response ∷ later.replies }

  unfoldable pub bad_request : HttpResponse h
  unfolding error_reply
  bad_request = error_reply h 400 (bytes "Bad Request")

  unfoldable pub handler_timeout : HttpResponse h
  unfolding error_reply
  handler_timeout = error_reply h 408 (bytes "Handler timeout")

  unfoldable pub response_of : Handled → HttpResponse h
  response_of (answered response) = response
  response_of (handler_failed e) = internal_error h
  response_of handler_timed_out = handler_timeout

  -- `finds` says whether the router has a handler for the request.
  module _ (finds : ParsedRequest h → Bool) (max_requests_per_connection : ℕ) where
    unfoldable pub reply_to : ParsedRequest h → Handled → HttpResponse h
    reply_to request handled = if finds request then response_of handled else not_found h

    -- The reply to a malformed request. `later` is the rest of the loop.
    unfoldable pub refuse : Sent → SharedStats → (SharedStats → Served) → Served
    refuse sent stats later = replied bad_request (later (count_error stats))
    refuse (send_failed e) stats later = stop stats (err e)
    refuse send_timed_out stats later = stop stats (err (timeout_msg "Response write timeout"))

    -- The reply to a request. `later` is the rest of the loop with one more request served.
    unfoldable pub answer :
        HttpResponse h → Sent → ℕ → SharedStats → (SharedStats → Served) → Served
    answer response sent requests_served stats later =
        let last = stop (count_response stats) (ok tt) in
        replied response (
          if leb max_requests_per_connection (requests_served + 1)
          then last
          else later (count_response stats))
    answer response (send_failed e) requests_served stats later = stop (count_error stats) (err e)
    answer response send_timed_out requests_served stats later =
        stop (count_error stats) (err (timeout_msg "Response write timeout"))

    unfoldable pub turn :
        Arrival → Handled → Sent → ℕ → SharedStats → (ℕ → SharedStats → Served) → Served
    turn closed handled writing requests_served stats later = stop stats (ok tt)
    turn read_timed_out handled writing requests_served stats later =
        stop stats (err (timeout_msg "Request read timeout"))
    turn (malformed e) handled writing requests_served stats later =
        refuse writing stats (later requests_served)
    turn (arrived request) handled writing requests_served stats later =
        answer (reply_to request handled) writing requests_served (count_request stats)
          (later (requests_served + 1))

    unfoldable pub connection_loop : ℕ → SharedStats → List Turn → Served
    connection_loop requests_served stats [] = record {
      stats = stats;
      replies = [];
      ending = waiting;
    }
    connection_loop requests_served stats (t ∷ turns) =
        turn t.arrival t.handled t.writing requests_served stats
          (λ served s. connection_loop served s turns)

    unfoldable pub handle_connection : SharedStats → List Turn → Served
    handle_connection stats turns = connection_loop 0 stats turns
