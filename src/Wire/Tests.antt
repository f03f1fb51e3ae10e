-- ===== src/Wire/Tests.antt =====
-- A request from the client to the server and a response back, and the theorems applied there.
use kode_bridge.Base.{◌++◌, ◌≡◌, refl, String, some, [], ◌∷◌, arith}
use kode_bridge.Bytes.{
  bytes, from_str_radix, parse_digits, to_digit, eq_ignore_ascii_case, to_lower,
}
use kode_bridge.Codec.{
  HttpResponse, encode, reason_of, content_length_of, decode, decoded, encode_headers,
}
use kode_bridge.Codec.Sample.{crates, small_codec, two}
use kode_bridge.HttpClient.Request.{RequestBuilder, build}
use kode_bridge.HttpClient.Sample.{maps, crates as client_crates}
use kode_bridge.HttpClient.Response.{ParseError, RawResponse, build_headers}
use kode_bridge.StreamClient.Head.{parse_streaming_response}
use kode_bridge.Wire.Responses.{IsReadable, parse_streaming_response-encode}
use kode_bridge.Errors.{ok}
use kode_bridge.Wire.Requests.{IsSendable, received, decode-build}

abbrev asks : RequestBuilder maps
asks = record {
  method = bytes "GET";
  uri = bytes "/";
  headers = (bytes "content-length", two) ∷ [];
  body = some (bytes "hi");
}

asks-IsSendable : IsSendable maps (crates two) small_codec asks (bytes "GET") (bytes "/")
unfolding content_length_of eq_ignore_ascii_case to_lower from_str_radix parse_digits to_digit
    encode_headers
asks-IsSendable = record {
  method_is_line = (omega arith, (omega arith, (omega arith, tt)));
  uri_is_line = (omega arith, tt);
  headers_are_lines = (omega arith, tt);
  announced = refl;
  fits = omega arith;
  counted = omega arith;
  parsed = refl;
  method_valid = refl;
  uri_valid = refl;
}

decode-build_example :
    decode (crates two) small_codec (build maps asks ++ bytes "GET")
    ≡ decoded (received maps (crates two) small_codec asks (bytes "GET") (bytes "/")) (bytes "GET")
decode-build_example =
    decode-build maps (crates two) small_codec asks (bytes "GET") (bytes "/") (bytes "GET")
      asks-IsSendable

abbrev page : HttpResponse (crates two)
page = record {
  status = 200;
  headers = (bytes "content-type", bytes "text/plain") ∷ [];
  body = bytes "hi";
}

abbrev display : ParseError → String
display e = "bad"

-- The client's parser answers with this whatever the bytes are.
abbrev raw_page : RawResponse
raw_page = record { code = some 200; headers = (bytes "Content-Length", bytes "2") ∷ [] }

page-IsReadable :
    IsReadable
      (crates two)
      client_crates
      display
      page
      raw_page
      200
      ((bytes "Content-Length", bytes "2") ∷ [])
unfolding reason_of build_headers
page-IsReadable = record {
  headers_are_lines = ((omega arith, omega arith), tt);
  reason_is_line = omega arith;
  parsed = refl;
  coded = refl;
  headers_valid = refl;
  status_valid = refl;
}

parse_streaming_response-encode_example :
    parse_streaming_response client_crates display (encode (crates two) page [])
    ≡ some (
        ok (record {
          status = 200;
          headers = (bytes "Content-Length", bytes "2") ∷ [];
          stream = bytes "hi";
        }))
parse_streaming_response-encode_example =
    parse_streaming_response-encode (crates two) client_crates display page raw_page 200
      ((bytes "Content-Length", bytes "2") ∷ []) page-IsReadable
