-- ===== src/HttpClient/Sample.antt =====
-- A response on a concrete stream. All bytes are readable text, and nothing is trimmed; the parser
-- answers with one response whatever the bytes are.
use kode_bridge.Base.{◌≡◌, refl, true, Option, none, some, List, [], ◌∷◌, ◌++◌, if◌then◌else◌}
use kode_bridge.Errors.{ok}
use kode_bridge.Bytes.{
  Bytes, bytes, crlf, eq_ignore_ascii_case, from_str_radix, parse_digits, to_digit, to_lower,
}
use kode_bridge.Codec.{RawHeader}
use kode_bridge.HttpClient.Request.{HeaderMaps}
use kode_bridge.HttpClient.Reader.{
  Utf8, Read, read_line, split_line, is_blank, read_fixed_body, read_exact,
}
use kode_bridge.HttpClient.Response.{
  Crates, complete, Response, parse_response, read_head, read_header_lines, respond, parse_head,
  lossy_headers, build_headers, content_length, length_of_value, all_digits, is_chunked, body_mode,
  read_body, with_body,
}

-- A header map is the list of its headers.
abbrev pub maps : HeaderMaps
maps = record {
  HeaderMap = List RawHeader;
  HeaderName = Bytes;
  HeaderValue = Bytes;
  name_from_bytes = some;
  value_from_str = some;
  from_static = λ text. text;
  host = bytes "host";
  user_agent = bytes "user-agent";
  content_type = bytes "content-type";
  content_length = bytes "content-length";
  empty = [];
  insert = λ map name value. (name, value) ∷ map;
  iter = λ map. map;
}

abbrev pub plain : Utf8
plain = record { is_utf8 = λ b. true; trim = λ b. b }

unfoldable pub lookup : List RawHeader → Bytes → Option Bytes
lookup [] name = none
lookup ((n, v) ∷ rest) name =
    let later = lookup rest name in if eq_ignore_ascii_case n name then some v else later

abbrev pub crates : Crates
crates = record {
  HeaderName = Bytes;
  HeaderValue = Bytes;
  HeaderMap = List RawHeader;
  parse = λ room buffer.
      complete (record { code = some 200; headers = (bytes "Content-Length", bytes "2") ∷ [] });
  from_utf8_lossy = λ b. b;
  parse_name = ok;
  parse_value = ok;
  empty = [];
  insert = λ map name value. (name, value) ∷ map;
  get = lookup;
  to_str = some;
  valid_status = λ status. true;
}

abbrev pub stream : Bytes
stream =
    bytes "HTTP/1.1 200 OK"
    ++ (crlf ++ (bytes "Content-Length: 2" ++ (crlf ++ (crlf ++ bytes "hi"))))

abbrev pub no_reads : Bytes → List Read
no_reads rest = []

abbrev pub response : Response crates
response = record {
  status = 200;
  headers = (bytes "Content-Length", bytes "2") ∷ [];
  body = bytes "hi";
}

pub parsed_response : parse_response crates plain no_reads stream ≡ some (ok response)
unfolding parse_response read_head read_line split_line read_header_lines is_blank respond
    parse_head lossy_headers build_headers content_length length_of_value all_digits is_chunked
    body_mode read_body with_body read_fixed_body read_exact lookup eq_ignore_ascii_case to_lower
    from_str_radix parse_digits to_digit
parsed_response = refl
