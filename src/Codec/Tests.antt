-- ===== src/Codec/Tests.antt =====
-- The codec on concrete messages. The parser answers with one request whatever the bytes are.
use kode_bridge.Base.{◌+◌, ◌^◌, ◌≤◌, ◌≡◌, refl, ◌↔◌, [], ◌∷◌, ◌++◌, arith}
use kode_bridge.Bytes.{
  to_digit, parse_digits, from_str_radix, decimal, to_lower, eq_ignore_ascii_case, to_decimal,
  Bytes, bytes, crlf,
}
use kode_bridge.Codec.{
  method_of, encode_headers, is_header_end, reason_of, HttpResponse, decoded, panicked, decode,
  encode, path_of, find_header_end, has_content_length, content_length_of,
}
use kode_bridge.Codec.Sample.{
  request, crates, small_codec, header_text, two, parsed, decoded_request,
}
use kode_bridge.Codec.Accepted.{BeginsWith, decode-BeginsWith}
use kode_bridge.Codec.Fragments.{decode-append}
use kode_bridge.Codec.Overflow.{decode_panics_iff}

decode-BeginsWith_example :
    (decode (crates two) small_codec (header_text ++ bytes "hi!") ≡ decoded parsed (bytes "!"))
    ↔ BeginsWith (crates two) small_codec (header_text ++ bytes "hi!") parsed (bytes "!")
decode-BeginsWith_example =
    decode-BeginsWith (crates two) small_codec (header_text ++ bytes "hi!") parsed (bytes "!")

decode-append_example :
    decode (crates two) small_codec ((header_text ++ bytes "hi!") ++ bytes "?")
    ≡ decoded parsed (bytes "!?")
decode-append_example =
    decode-append (crates two) small_codec (header_text ++ bytes "hi!") (bytes "?") parsed
      (bytes "!") decoded_request

-- The largest length that a header can announce.
abbrev huge : Bytes
huge = bytes "18446744073709551615"

decode_panics_iff_example :
    (decode (crates huge) small_codec (header_text) ≡ panicked)
    ↔ (2 ^ 64 ≤ 28 + content_length_of 0 ((bytes "content-length", huge) ∷ []))
unfolding find_header_end is_header_end content_length_of eq_ignore_ascii_case to_lower
    from_str_radix parse_digits to_digit method_of path_of
decode_panics_iff_example =
    decode_panics_iff (crates huge) small_codec header_text 24 (request huge) (bytes "GET")
      (bytes "/") refl refl refl refl (omega arith) (omega arith) (omega arith)

huge_panics : decode (crates huge) small_codec (header_text) ≡ panicked
unfolding content_length_of eq_ignore_ascii_case to_lower from_str_radix parse_digits to_digit
huge_panics = decode_panics_iff_example.1 (omega arith)

abbrev response : HttpResponse (crates two)
response = record {
  status = 200;
  headers = (bytes "content-type", bytes "text/plain") ∷ [];
  body = bytes "hi";
}

encoded_response :
    encode (crates two) response []
    ≡ bytes "HTTP/1.1 200 OK"
      ++ (crlf
          ++ (bytes "content-type: text/plain"
              ++ (crlf ++ (bytes "Content-Length: 2" ++ (crlf ++ (crlf ++ bytes "hi"))))))
unfolding encode to_decimal decimal reason_of encode_headers has_content_length eq_ignore_ascii_case
    to_lower
encoded_response = refl
