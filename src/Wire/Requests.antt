-- ===== src/Wire/Requests.antt =====
-- src/http_client.rs, `RequestBuilder::build`, and src/codec.rs, `decode`: a request from the client to
-- the server.
use mathlib.Core.List.{append_assoc}
use kode_bridge.Base.{
  ℕ, ◌+◌, ◌≤◌, ◌<◌, ◌^◌, ◌≡◌, refl, sym, ap, ◌∙◌, some, ◌++◌, length, length-append, take, drop,
  drop-at, All, arith,
}
use kode_bridge.Bytes.{Bytes}
use kode_bridge.Codec.{
  Http, HttpIpcCodec, RawRequest, ParsedRequest, complete, decoded, decode, content_length_of,
  method_of, path_of, header_map_of,
}
use kode_bridge.Codec.Framing.{NoCr, IsLine, IsHeader, head, find_header_end-head}
use kode_bridge.Codec.Decoding.{IsDecoded, IsAccepted, total_of, decode-IsDecoded}
use kode_bridge.HttpClient.Chunks.{take-length}
use kode_bridge.HttpClient.Request.{HeaderMaps, RequestBuilder, body_of, build}
use kode_bridge.HttpClient.Sending.{request_line, build-head, request_line-IsLine}

module _ (maps : HeaderMaps) (h : Http) (codec : HttpIpcCodec) (b : RequestBuilder maps) where
  abbrev pub head_of : Bytes
  head_of = head (request_line maps b) (maps.iter b.headers)

  -- What httparse gives of the head: its method, its path and its headers.
  abbrev pub raw_of : RawRequest
  raw_of = record { method = some b.method; path = some b.uri; headers = maps.iter b.headers }

  -- A request that the server has room for, whose head is well-formed and whose headers announce its
  -- body; the parser takes its head whole, and its method and its path are valid.
  pub record IsSendable (method : h.Method) (uri : h.Uri) : Type 0 where
    pub method_is_line : IsLine b.method
    pub uri_is_line : NoCr b.uri
    pub headers_are_lines : All IsHeader (maps.iter b.headers)
    pub announced : content_length_of 0 (maps.iter b.headers) ≡ length (body_of maps b)
    pub fits : length head_of + length (body_of maps b) ≤ codec.max_request_size
    pub counted : length head_of + length (body_of maps b) < 2 ^ 64
    pub parsed : h.parse_request head_of ≡ complete (length head_of) raw_of
    pub method_valid : h.method_from_bytes b.method ≡ some method
    pub uri_valid : h.parse_uri b.uri ≡ some uri

  abbrev pub received : h.Method → h.Uri → ParsedRequest h
  received method uri = record {
    method = method;
    uri = uri;
    headers = header_map_of h h.empty (maps.iter b.headers);
    body = body_of maps b;
  }

  module _ (method : h.Method) (uri : h.Uri) (more : Bytes) (s : IsSendable method uri) where
    abbrev sent_bytes : Bytes
    sent_bytes = head_of ++ (body_of maps b ++ more)

    sent_bytes-split : sent_bytes ≡ (head_of ++ body_of maps b) ++ more
    sent_bytes-split = sym (append_assoc head_of (body_of maps b) more)

    accepted :
        (headers_len : ℕ)
        → headers_len ≡ length head_of
        → IsAccepted h codec sent_bytes headers_len
            (length head_of)
            raw_of
            (received method uri)
            more
    accepted headers_len e =
        let body = body_of maps b in
        let whole = head_of ++ body in
        let fits = s.fits in
        let total : total_of headers_len raw_of ≡ length whole =
          omega (arith, e, s.announced, s.counted, length-append head_of body) in
        let taken : take (total_of headers_len raw_of) sent_bytes ≡ whole =
          ap (λ k. take k sent_bytes) total
          ∙ ap (take (length whole)) sent_bytes-split
          ∙ take-length whole more in
        record {
          fits = omega (arith, total, fits, length-append head_of body);
          arrived = omega (arith, total, ap length sent_bytes-split, length-append whole more);
          within = omega (arith, total, length-append head_of body);
          method_read = unfold method_of in ground (arith, s.method_valid);
          path_read = unfold path_of in ground (arith, s.uri_valid);
          headers_read = refl;
          body_taken =
              sym (ap (drop (length head_of)) taken ∙ drop-at (length head_of) head_of body refl);
          rest_left = sym (
              ap (drop (total_of headers_len raw_of)) sent_bytes-split
              ∙ drop-at _ whole more total);
        }

    sent_bytes-IsDecoded : IsDecoded h codec sent_bytes (received method uri) more
    sent_bytes-IsDecoded =
        let (n, found, len) =
          find_header_end-head (maps.iter b.headers) (request_line maps b) (body_of maps b ++ more)
            (request_line-IsLine maps b s.method_is_line s.uri_is_line) s.headers_are_lines in
        let at : n + 4 ≡ length head_of =
          omega (arith, len, length-append head_of (body_of maps b ++ more)) in
        record {
          header_end = n;
          body_start = length head_of;
          req = raw_of;
          ended = found;
          parsed =
              ap (λ k. h.parse_request (take k sent_bytes)) at
              ∙ ap h.parse_request (take-length head_of (body_of maps b ++ more))
              ∙ s.parsed;
          accepted_parts = accepted (n + 4) at;
        }

    -- The server decodes such a request of the client as it was built, its body byte for byte, and
    -- leaves exactly the bytes that follow it.
    pub decode-build : decode h codec (build maps b ++ more) ≡ decoded (received method uri) more
    decode-build =
        let same : build maps b ++ more ≡ sent_bytes =
          ap (λ l. l ++ more) (build-head maps b) ∙ append_assoc head_of (body_of maps b) more in
        ap (decode h codec) same
        ∙ (decode-IsDecoded h codec sent_bytes (received method uri) more).1 sent_bytes-IsDecoded
