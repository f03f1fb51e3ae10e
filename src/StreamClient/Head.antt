-- ===== src/StreamClient/Head.antt =====
-- src/stream_client.rs, `parse_streaming_response`: the head of a response, up to its blank line. The
-- crates are those of `HttpClient`; `display` is the text of an error of httparse.
use kode_bridge.Base.{
  ℕ, zero, suc, ◌+◌, String, Option, none, some, [], ◌∷◌, ◌++◌, length, take, leb, ◌==◌,
  if◌then◌else◌,
}
use kode_bridge.Errors.{http_parse, protocol, invalid_status_code, Result, ok, err}
use kode_bridge.Bytes.{Bytes}
use kode_bridge.Codec.{is_header_end}
use kode_bridge.HttpClient.Reader.{Answer, split_line}
use kode_bridge.HttpClient.Response.{ParseError, Crates, failed, partial, complete, build_headers}

-- The bytes from position `i` on: the first position behind a blank line.
unfoldable pub first_end : ℕ → Bytes → Option ℕ
first_end i [] = none
first_end i (c ∷ cs) =
    let later = first_end (i + 1) cs in if is_header_end (c ∷ cs) then some (i + 4) else later

unfoldable pub headers_end : Bytes → Option ℕ
headers_end buffer = if leb 4 (length buffer) then first_end 0 buffer else none

-- The buffer and the end of the headers in it, and what is left of the stream. None where the fuel
-- runs out.
unfoldable pub head_loop : ℕ → Bytes → Bytes → Answer (Bytes × ℕ)
head_loop zero buffer stream = none
head_loop (suc fuel) buffer stream =
    let (line, rest) = split_line stream in
    if length line == 0
    then some (err (protocol "Unexpected end of stream"))
    else elim (headers_end (buffer ++ line)) [
      | some n ↦ some (ok ((buffer ++ line, n), rest))
      | none ↦ head_loop fuel (buffer ++ line) rest
    ]

-- Every turn takes a byte off the stream.
unfoldable pub read_streaming_head : Bytes → Answer (Bytes × ℕ)
read_streaming_head stream = head_loop (suc (length stream)) [] stream

module _ (c : Crates) where
  pub record StreamingResponse : Type 0 where
    pub status : ℕ
    pub headers : c.HeaderMap
    pub stream : Bytes

  unfoldable pub streaming_response : ℕ → Result (c.HeaderMap) → Bytes → Result StreamingResponse
  streaming_response status (err e) rest = err e
  streaming_response status (ok map) rest =
      if c.valid_status status
      then ok (record { status = status; headers = map; stream = rest })
      else err (invalid_status_code "invalid status code")

  -- The head is parsed with room for 64 headers.
  unfoldable pub parse_streaming_head :
      (ParseError → String) → Bytes → Bytes → Result StreamingResponse
  parse_streaming_head display head rest = elim (c.parse 64 head) [
    | failed e ↦ err (http_parse (display e))
    | partial ↦ err (protocol "Incomplete HTTP response")
    | complete r ↦ elim r.code [
      | none ↦ err (protocol "HTTP response missing status code")
      | some code ↦ streaming_response code (build_headers c c.empty r.headers) rest
    ]
  ]

  unfoldable pub parse_streaming_response :
      (ParseError → String) → Bytes → Option (Result StreamingResponse)
  parse_streaming_response display stream = elim (read_streaming_head stream) [
    | none ↦ none
    | some answer ↦ elim answer [
      | err e ↦ some (err e)
      | ok ((buffer, n), rest) ↦ some (parse_streaming_head display (take n buffer) rest)
    ]
  ]
