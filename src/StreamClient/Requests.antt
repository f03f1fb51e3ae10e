-- ===== src/StreamClient/Requests.antt =====
-- src/ipc_stream_client.rs: requests whose response is streamed, and the connections for them. The
-- builder of a request is that of `HttpClient`.
use Prim.Native.String.{◌++◌ as append}
use kode_bridge.Base.{ℕ, ◌/◌, String, Option, none, some, List, [], ◌∷◌, ◌++◌}
use kode_bridge.Errors.{http, invalid_request, connection, timeout, Result, ok, err}
use kode_bridge.Bytes.{Bytes}
use kode_bridge.HttpClient.Request.{HeaderMaps, RequestBuilder, new_request, json, build}
use kode_bridge.HttpClient.Response.{ParseError, Crates}
use kode_bridge.Pool.Connect.{Answer, describe}
use kode_bridge.Client.Connections.{Timed, in_time, too_late, direct_loop}
use kode_bridge.Client.Requests.{add_headers}
use kode_bridge.StreamClient.Head.{StreamingResponse, parse_streaming_response}

pub record StreamClientConfig : Type 0 where
  pub default_timeout : ℕ
  pub max_retries : ℕ
  pub retry_delay : ℕ

-- A JSON value is its text.
pub record StreamRequestBuilder : Type 0 where
  pub method : String
  pub path : Bytes
  pub body : Option Bytes
  pub timeout : ℕ
  pub headers : List (Bytes × Bytes)

unfoldable pub new_stream_request : StreamClientConfig → String → Bytes → StreamRequestBuilder
new_stream_request config method path = record {
  method = method;
  path = path;
  body = none;
  timeout = config.default_timeout;
  headers = [];
}

unfoldable pub with_stream_json_body : Bytes → StreamRequestBuilder → StreamRequestBuilder
with_stream_json_body text b = record b { body = some text }

unfoldable pub with_stream_timeout : ℕ → StreamRequestBuilder → StreamRequestBuilder
with_stream_timeout limit b = record b { timeout = limit }

unfoldable pub with_stream_header : Bytes → Bytes → StreamRequestBuilder → StreamRequestBuilder
with_stream_header key value b = record b { headers = b.headers ++ (key, value) ∷ [] }

unfoldable pub streaming_failure : (ℕ → String) → ℕ → Option String → Result ℕ
unfolding describe
streaming_failure display max_retries last = err (
    connection (
      append "Failed to create streaming connection after "
        (append (display max_retries) (append " attempts: " (describe last)))))

-- `create_connection`, whose loop is that of `create_direct_connection`. What is slept is recorded.
unfoldable pub create_streaming_connection :
    (ℕ → String) → StreamClientConfig → (ℕ → Answer) → Result ℕ × List ℕ
create_streaming_connection display config connect =
    direct_loop connect (streaming_failure display config.max_retries) config.retry_delay
      config.max_retries 0 none

module _ (h : HeaderMaps) where
  unfoldable pub add_json : Option Bytes → RequestBuilder h → Option (RequestBuilder h)
  add_json none r = some r
  add_json (some text) r = json h text r

  -- `parse_method` gives the text of a valid method; the others have the text of their error.
  unfoldable pub prepare_stream_request :
      (String → Option Bytes) → (String → String) → StreamRequestBuilder → Result Bytes
  prepare_stream_request parse_method invalid_method b = elim (parse_method b.method) [
    | none ↦ err (invalid_request (append "Invalid method: " (invalid_method b.method)))
    | some method ↦ elim (add_json b.body (add_headers h b.headers (new_request h method b.path))) [
      | none ↦ err (http "failed to parse header value")
      | some r ↦ ok (build h r)
    ]
  ]

module _ (c : Crates) where
  -- `send_streaming_request`: `written` is what writing and flushing the request comes to.
  unfoldable pub send_streaming_request :
      (ParseError → String) → Result (Unit {0}) → Bytes → Option (Result (StreamingResponse c))
  send_streaming_request display (err e) stream = some (err e)
  send_streaming_request display (ok done) stream = parse_streaming_response c display stream

  -- The connection and the exchange run under one timeout, in nanoseconds; its error is in
  -- milliseconds.
  unfoldable pub streamed_exchange :
      ℕ → Timed (Result (StreamingResponse c)) → Result (StreamingResponse c)
  streamed_exchange limit (in_time answer) = answer
  streamed_exchange limit too_late = err (timeout (limit / 1_000_000))
