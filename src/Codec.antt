-- ===== src/Codec.antt =====
-- src/codec.rs: `HttpIpcCodec`, the decoder of requests and the encoder of responses.
-- `httparse` and the types of the `http` crate are parameters (`Http`); a buffer is its bytes.
pub mod HeaderEnd
pub mod Decoding
pub mod Lengths
pub mod Accepted
pub mod Fragments
pub mod Overflow
pub mod Framing
pub mod Encoding
pub mod Sample
mod Tests
use Prim.Native.String.{◌++◌ as append}
use kode_bridge.Base.{
  ℕ, zero, suc, ◌+◌, ◌-◌, ◌%◌, ◌^◌, String, Bool, true, false, ◌&&◌, ◌||◌, Option, none, some, List,
  [], ◌∷◌, ◌++◌, length, take, drop, ltb, leb, ◌==◌, u64, if◌then◌else◌,
}
use kode_bridge.Errors.{KodeBridgeError, validation, Result, ok, err}
use kode_bridge.Bytes.{Bytes, bytes, crlf, eq_ignore_ascii_case, parse_usize, to_decimal}

-- A header as it stands in a buffer: its name and its value.
abbrev pub RawHeader : Type 0
RawHeader = Bytes × Bytes

-- `httparse::Request` after a parse.
pub record RawRequest : Type 0 where
  pub method : Option Bytes
  pub path : Option Bytes
  pub headers : List RawHeader

-- The answer of `Request::parse`.
pub data Parse : Type 0 where
  parse_error : String → Parse
  partial : Parse
  complete : ℕ → RawRequest → Parse

-- The crates `httparse` and `http`. A conversion that fails has the text of its error.
pub record Http : Type 1 where
  pub Method : Type 0
  pub Uri : Type 0
  pub HeaderName : Type 0
  pub HeaderValue : Type 0
  pub HeaderMap : Type 0
  pub parse_request : Bytes → Parse
  pub method_from_bytes : Bytes → Option Method
  pub invalid_method : Bytes → String
  pub parse_uri : Bytes → Option Uri
  pub invalid_uri : Bytes → String
  pub parse_name : Bytes → Option HeaderName
  pub parse_value : Bytes → Option HeaderValue
  pub empty : HeaderMap
  pub insert : HeaderMap → HeaderName → HeaderValue → HeaderMap
  -- The headers of a map in its order of iteration.
  pub iter : HeaderMap → List RawHeader
  pub canonical_reason : ℕ → Option Bytes

pub record HttpIpcCodec : Type 0 where
  pub max_header_size : ℕ
  pub max_request_size : ℕ

-- `window == b"\r\n\r\n"` for the window at the front.
unfoldable pub is_header_end : Bytes → Bool
is_header_end (a ∷ b ∷ c ∷ d ∷ rest) = a == 13 && b == 10 && c == 13 && d == 10
is_header_end _ = false

unfoldable pub find_header_end : Bytes → Option ℕ
find_header_end [] = none
find_header_end (x ∷ xs) =
    let later = find_header_end xs in
    if is_header_end (x ∷ xs) then some 0 else elim later [ none ↦ none | some n ↦ some (suc n) ]

-- The last header of that name with a readable value counts; bytes that are no UTF-8 are no number.
unfoldable pub content_length_of : ℕ → List RawHeader → ℕ
content_length_of found [] = found
content_length_of found ((name, value) ∷ rest) =
    content_length_of
      (if eq_ignore_ascii_case name (bytes "Content-Length")
        then elim (parse_usize value) [ none ↦ found | some len ↦ len ]
        else found)
      rest

unfoldable pub encode_headers : List RawHeader → Bytes
encode_headers [] = []
encode_headers ((key, value) ∷ rest) =
    key ++ (bytes ": " ++ (value ++ (crlf ++ encode_headers rest)))

unfoldable pub has_content_length : List RawHeader → Bool
has_content_length [] = false
has_content_length ((key, value) ∷ rest) =
    eq_ignore_ascii_case key (bytes "content-length") || has_content_length rest

module _ (h : Http) where
  open h use {Method, Uri, HeaderMap, parse_name, parse_value, empty, insert}

  pub record ParsedRequest : Type 0 where
    pub method : Method
    pub uri : Uri
    pub headers : HeaderMap
    pub body : Bytes

  -- A header whose name or value is not valid is left out.
  unfoldable pub header_map_of : HeaderMap → List RawHeader → HeaderMap
  header_map_of map [] = map
  header_map_of map ((name, value) ∷ rest) =
      header_map_of
        (elim (parse_name name) [
          | none ↦ map
          | some n ↦ elim (parse_value value) [ none ↦ map | some v ↦ insert map n v ]
        ])
        rest

  -- What `decode` returns, or a panic. Only a decoded request takes bytes off the buffer.
  pub data Decoded : Type 0 where
    need_more : Decoded
    rejected : KodeBridgeError → Decoded
    decoded : ParsedRequest → Bytes → Decoded
    panicked : Decoded

  unfoldable pub path_of : Option Bytes → Result Uri
  path_of none = err (validation "Missing HTTP path")
  path_of (some path) = elim (h.parse_uri path) [
    | none ↦ err (validation (append "Invalid URI: " (h.invalid_uri path)))
    | some uri ↦ ok uri
  ]

  unfoldable pub method_of : Option Bytes → Result Method
  method_of none = err (validation "Missing HTTP method")
  method_of (some method) = elim (h.method_from_bytes method) [
    | none ↦ err (validation (append "Invalid HTTP method: " (h.invalid_method method)))
    | some m ↦ ok m
  ]

  -- `split_to(total_len)`, then `slice(body_start..)`, which panics past the end.
  unfoldable pub split_request : Bytes → ℕ → ℕ → Method → Uri → HeaderMap → Decoded
  split_request src total_len body_start method uri headers =
      if leb body_start total_len
      then decoded
          (record {
            method = method;
            uri = uri;
            headers = headers;
            body = drop body_start (take total_len src);
          })
          (drop total_len src)
      else panicked

  -- The part after a complete parse. `headers_len + content_length` wraps.
  unfoldable pub decode_complete : HttpIpcCodec → Bytes → ℕ → ℕ → RawRequest → Decoded
  decode_complete codec src headers_len body_start req =
      let total_len = u64 (headers_len + content_length_of 0 req.headers) in
      if ltb codec.max_request_size total_len
      then rejected (validation "Request size exceeds maximum allowed")
      else if ltb (length src) total_len
      then need_more
      else elim (method_of req.method) [
        | err e ↦ rejected e
        | ok method ↦ elim (path_of req.path) [
          | err e ↦ rejected e
          | ok uri ↦
              split_request src total_len body_start method uri (header_map_of empty req.headers)
        ]
      ]

  unfoldable pub decode_parsed : HttpIpcCodec → Bytes → ℕ → Parse → Decoded
  decode_parsed codec src headers_len (parse_error text) =
      rejected (validation (append "Failed to parse HTTP request: " text))
  decode_parsed codec src headers_len partial = need_more
  decode_parsed codec src headers_len (complete body_start req) =
      decode_complete codec src headers_len body_start req

  unfoldable pub decode_headers : HttpIpcCodec → Bytes → Option ℕ → Decoded
  decode_headers codec src none =
      if ltb codec.max_header_size (length src)
      then rejected (validation "Header size exceeds maximum allowed")
      else need_more
  decode_headers codec src (some header_end) =
      decode_parsed codec src (header_end + 4) (h.parse_request (take (header_end + 4) src))

  unfoldable pub decode : HttpIpcCodec → Bytes → Decoded
  decode codec [] = need_more
  decode codec (x ∷ xs) = decode_headers codec (x ∷ xs) (find_header_end (x ∷ xs))

  -- The response of src/ipc_http_server.rs, as the encoder reads it.
  pub record HttpResponse : Type 0 where
    pub status : ℕ
    pub headers : HeaderMap
    pub body : Bytes

  unfoldable pub reason_of : ℕ → Bytes
  reason_of status = elim (h.canonical_reason status) [
    | none ↦ bytes "Unknown"
    | some reason ↦ reason
  ]

  unfoldable pub encode : HttpResponse → Bytes → Bytes
  encode item dst =
      let headers = h.iter item.headers in
      dst
      ++ (bytes "HTTP/1.1 "
          ++ (to_decimal item.status
              ++ (bytes " "
                  ++ (reason_of item.status
                      ++ (crlf
                          ++ (encode_headers headers
                              ++ ((if has_content_length headers
                                    then []
                                    else bytes "Content-Length: "
                                      ++ (to_decimal (length item.body) ++ crlf))
                                  ++ (crlf ++ item.body))))))))
