-- ===== src/Codec/Sample.antt =====
-- A request on concrete bytes. The parser answers with one request whatever the bytes are.
use kode_bridge.Base.{◌≡◌, refl, some, List, [], ◌∷◌, ◌++◌, length}
use kode_bridge.Bytes.{
  to_digit, parse_digits, from_str_radix, to_lower, eq_ignore_ascii_case, Bytes, bytes, crlf,
}
use kode_bridge.Codec.{
  header_map_of, method_of, split_request, decode_complete, decode_parsed, is_header_end,
  decode_headers, Http, HttpIpcCodec, RawHeader, RawRequest, complete, ParsedRequest, decoded,
  decode, path_of, find_header_end, content_length_of,
}

abbrev pub request : Bytes → RawRequest
request announced = record {
  method = some (bytes "GET");
  path = some (bytes "/");
  headers = (bytes "content-length", announced) ∷ [];
}

abbrev pub crates : Bytes → Http
crates announced = record {
  Method = Bytes;
  Uri = Bytes;
  HeaderName = Bytes;
  HeaderValue = Bytes;
  HeaderMap = List RawHeader;
  parse_request = λ src. complete (length src) (request announced);
  method_from_bytes = some;
  invalid_method = λ text. "";
  parse_uri = some;
  invalid_uri = λ text. "";
  parse_name = some;
  parse_value = some;
  empty = [];
  insert = λ map name value. (name, value) ∷ map;
  iter = λ map. map;
  canonical_reason = λ status. some (bytes "OK");
}

abbrev pub small_codec : HttpIpcCodec
small_codec = record { max_header_size = 64; max_request_size = 128 }

abbrev pub header_text : Bytes
header_text = bytes "GET /" ++ (crlf ++ (bytes "content-length: 2" ++ (crlf ++ crlf)))

abbrev pub two : Bytes
two = bytes "2"

abbrev pub parsed : ParsedRequest (crates two)
parsed = record {
  method = bytes "GET";
  uri = bytes "/";
  headers = (bytes "content-length", two) ∷ [];
  body = bytes "hi";
}

pub decoded_request :
    decode (crates two) small_codec (header_text ++ bytes "hi!") ≡ decoded parsed (bytes "!")
unfolding decode decode_headers decode_parsed decode_complete split_request find_header_end
    is_header_end content_length_of eq_ignore_ascii_case to_lower from_str_radix parse_digits
    to_digit method_of path_of header_map_of
decoded_request = refl
