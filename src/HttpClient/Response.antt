-- ===== src/HttpClient/Response.antt =====
-- src/http_client.rs, `parse_response`, and the parser of src/parser_cache.rs that it uses.
-- `httparse` and the types of the `http` crate are parameters.
use Prim.Native.String.{◌++◌ as append}
use kode_bridge.Base.{
  inr, inl, ◌⊎◌, ℕ, zero, suc, ◌*◌, String, Bool, true, false, ◌&&◌, Option, none, some, List, [],
  ◌∷◌, ◌++◌, length, ltb, leb, ◌==◌, if◌then◌else◌,
}
use kode_bridge.Errors.{
  KodeBridgeError, protocol, stream_closed, invalid_status_code, Result, ok, err,
}
use kode_bridge.Bytes.{Bytes, bytes, crlf, eq_ignore_ascii_case, parse_usize}
use kode_bridge.Codec.{RawHeader}
use kode_bridge.HttpClient.Reader.{
  Utf8, Read, Answer, ChunkedRead, out_of_fuel, panicked, returned, read_line, is_blank,
  read_chunked_body, read_fixed_body, read_until_end_adaptive,
}

-- An error of `httparse`, by whether it is `TooManyHeaders`.
pub data ParseError : Type 0 where
  too_many_headers : ParseError
  other_error : String → ParseError

-- `httparse::Response` after a parse.
pub record RawResponse : Type 0 where
  pub code : Option ℕ
  pub headers : List RawHeader

pub data ParsedHead : Type 0 where
  failed : ParseError → ParsedHead
  partial : ParsedHead
  complete : RawResponse → ParsedHead

-- The crates `httparse` and `http`.
pub record Crates : Type 1 where
  pub HeaderName : Type 0
  pub HeaderValue : Type 0
  pub HeaderMap : Type 0
  -- `Response::parse` with room for that many headers.
  pub parse : ℕ → Bytes → ParsedHead
  pub from_utf8_lossy : Bytes → Bytes
  pub parse_name : Bytes → Result HeaderName
  pub parse_value : Bytes → Result HeaderValue
  pub empty : HeaderMap
  pub insert : HeaderMap → HeaderName → HeaderValue → HeaderMap
  pub get : HeaderMap → Bytes → Option HeaderValue
  pub to_str : HeaderValue → Option Bytes
  pub valid_status : ℕ → Bool

unfoldable pub lossy_headers : (Bytes → Bytes) → List RawHeader → List RawHeader
lossy_headers lossy [] = []
lossy_headers lossy ((name, value) ∷ rest) = (name, lossy value) ∷ lossy_headers lossy rest

unfoldable pub all_digits : Bytes → Bool
all_digits [] = true
all_digits (c ∷ cs) = (leb 48 c && leb c 57) && all_digits cs

-- The header lines after the status line, up to a blank line or the end of the stream, which are
-- added to the buffer.
unfoldable pub read_header_lines : ℕ → Utf8 → Bytes → Bytes → Answer Bytes
read_header_lines zero u buffer stream = none
read_header_lines (suc fuel) u buffer stream = elim (read_line u stream) [
  | err e ↦ some (err e)
  | ok (line, rest) ↦
      let later = read_header_lines fuel u (buffer ++ line) rest in
      if length line == 0
      then some (ok (buffer, rest))
      else if is_blank line
      then some (ok (buffer, rest))
      else later
]

-- The buffer that is parsed, and what is left of the stream.
unfoldable pub read_head : Utf8 → Bytes → Answer Bytes
read_head u stream = elim (read_line u stream) [
  | err e ↦ some (err e)
  | ok (status_line, rest) ↦
      let lines = read_header_lines (suc (length rest)) u status_line rest in
      if length status_line == 0 then some (err stream_closed) else lines
]

-- How the body is read.
pub data BodyMode : Type 0 where
  chunked adaptive no_body too_large : BodyMode
  fixed : ℕ → BodyMode

module _ (c : Crates) where
  open c use {HeaderMap, parse_name, parse_value, empty, insert, get, to_str, valid_status}

  -- `HttpParser::parse_response`, which has room for 128 headers.
  unfoldable pub parse_head : Bytes → ParseError ⊎ (ℕ × List RawHeader)
  parse_head buffer = elim (c.parse 128 buffer) [
    | failed e ↦ inl e
    | partial ↦ inl (other_error "Status")
    | complete r ↦ elim r.code [
      | none ↦ inl (other_error "Status")
      | some code ↦ inr (code, lossy_headers c.from_utf8_lossy r.headers)
    ]
  ]

  unfoldable pub parse_failure : ParseError → KodeBridgeError
  parse_failure too_many_headers = protocol "Too many HTTP headers in response (limit: 64)"
  parse_failure (other_error text) = protocol (append "Failed to parse HTTP response: " text)

  -- A header whose name or value is not valid fails the response.
  unfoldable pub build_headers : HeaderMap → List RawHeader → Result HeaderMap
  build_headers map [] = ok map
  build_headers map ((name, value) ∷ rest) = elim (parse_name name) [
    | err e ↦ err e
    | ok n ↦ elim (parse_value value) [ err e ↦ err e | ok v ↦ build_headers (insert map n v) rest ]
  ]

  unfoldable pub length_of_value : Option Bytes → Option ℕ
  length_of_value none = none
  length_of_value (some text) = if all_digits text then parse_usize text else none

  unfoldable pub content_length : HeaderMap → Result (Option ℕ)
  content_length map = elim (get map (bytes "content-length")) [
    | none ↦ ok none
    | some value ↦ elim (length_of_value (to_str value)) [
      | none ↦ err (protocol "Invalid Content-Length in response")
      | some n ↦ ok (some n)
    ]
  ]

  unfoldable pub is_chunked : HeaderMap → Bool
  is_chunked map = elim (get map (bytes "transfer-encoding")) [
    | none ↦ false
    | some value ↦ elim (to_str value) [
      | none ↦ false
      | some text ↦ eq_ignore_ascii_case text (bytes "chunked")
    ]
  ]

  unfoldable pub body_mode : Bool → Option ℕ → BodyMode
  body_mode true len = chunked
  body_mode false none = adaptive
  body_mode false (some len) =
      if len == 0 then no_body else if ltb (10 * 1024 * 1024) len then too_large else fixed len

  pub record Response : Type 0 where
    pub status : ℕ
    pub headers : HeaderMap
    pub body : Bytes

  module _ (u : Utf8) (reads : Bytes → List Read) where
    abbrev body_of : Answer Bytes → Option (Result Bytes)
    body_of none = none
    body_of (some (err e)) = some (err e)
    body_of (some (ok (body, rest))) = some (ok body)

    -- None where the reader panics.
    abbrev chunked_body_of : ChunkedRead → Option (Result Bytes)
    chunked_body_of out_of_fuel = none
    chunked_body_of panicked = none
    chunked_body_of (returned (err e)) = some (err e)
    chunked_body_of (returned (ok (body, rest))) = some (ok body)

    -- `reads` says how the bytes that are left arrive where there is no length.
    unfoldable pub read_body : BodyMode → Bytes → Option (Result Bytes)
    read_body chunked stream = chunked_body_of (read_chunked_body u stream)
    read_body adaptive stream = read_until_end_adaptive (reads stream)
    read_body no_body stream = some (ok [])
    read_body too_large stream = some (err (protocol "Response body too large for memory"))
    read_body (fixed len) stream = body_of (some (read_fixed_body len stream))

    unfoldable pub with_body : ℕ → HeaderMap → Option (Result Bytes) → Option (Result Response)
    with_body status map none = none
    with_body status map (some (err e)) = some (err e)
    with_body status map (some (ok body)) =
        if valid_status status
        then some (ok (record { status = status; headers = map; body = body }))
        else some (err (invalid_status_code "invalid status code"))

    unfoldable pub respond : Bytes → Bytes → Option (Result Response)
    respond buffer rest = elim (parse_head buffer) [
      | inl e ↦ some (err (parse_failure e))
      | inr (status, parsed_headers) ↦ elim (build_headers empty parsed_headers) [
        | err e ↦ some (err e)
        | ok map ↦ elim (content_length map) [
          | err e ↦ some (err e)
          | ok len ↦ with_body status map (read_body (body_mode (is_chunked map) len) rest)
        ]
      ]
    ]

    -- None where nothing is returned: the reads of `reads` do not end the body, or a chunk is
    -- announced that cannot be allocated, which panics.
    unfoldable pub parse_response : Bytes → Option (Result Response)
    parse_response stream = elim (read_head u stream) [
      | none ↦ none
      | some (err e) ↦ some (err e)
      | some (ok (buffer, rest)) ↦ respond (buffer ++ crlf) rest
    ]
