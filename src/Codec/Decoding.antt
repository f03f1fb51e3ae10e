-- ===== src/Codec/Decoding.antt =====
-- src/codec.rs, `decode`: exactly when a request is decoded, and what it is.
use kode_bridge.Base.{
  ℕ, ◌+◌, ◌≤◌, ◌≡◌, refl, sym, ◌∙◌, ◌↔◌, inl, inr, Option, none, some, [], ◌∷◌, length, take, drop,
  u64, arith,
}
use kode_bridge.Errors.{ok, Result-cases}
use kode_bridge.Bytes.{Bytes}
use kode_bridge.Codec.{
  Http, HttpIpcCodec, Parse, complete, partial, parse_error, RawRequest, ParsedRequest, decoded,
  find_header_end, content_length_of, header_map_of, method_of, path_of, split_request,
  decode_complete, decode_parsed, decode_headers, decode,
}

-- The length of a request by its headers: that of the header block and the announced body.
abbrev pub total_of : ℕ → RawRequest → ℕ
total_of headers_len req = u64 (headers_len + content_length_of 0 req.headers)

module _ (h : Http) (codec : HttpIpcCodec) where
  -- The parsed headers and the buffer give the request, and leave the rest.
  pub record IsAccepted (src : Bytes) (headers_len body_start : ℕ) (req : RawRequest)
      (r : ParsedRequest h) (rest : Bytes) : Type 0 where
    pub fits : total_of headers_len req ≤ codec.max_request_size
    pub arrived : total_of headers_len req ≤ length src
    pub within : body_start ≤ total_of headers_len req
    pub method_read : method_of h req.method ≡ ok r.method
    pub path_read : path_of h req.path ≡ ok r.uri
    pub headers_read : r.headers ≡ header_map_of h h.empty req.headers
    pub body_taken : r.body ≡ drop body_start (take (total_of headers_len req) src)
    pub rest_left : rest ≡ drop (total_of headers_len req) src

  module _ (src : Bytes) (headers_len body_start : ℕ) (req : RawRequest) (r : ParsedRequest h)
      (rest : Bytes) where
    accepted :
        decode_complete h codec src headers_len body_start req ≡ decoded r rest
        → IsAccepted src headers_len body_start req r rest
    unfolding decode_complete split_request
    accepted e = elim (Result-cases (method_of h req.method)) [
      | inr (x, m) ↦ absurd (ground arith)
      | inl (method, m) ↦ elim (Result-cases (path_of h req.path)) [
        | inr (x, u) ↦ absurd (ground arith)
        | inl (uri, u) ↦ ground arith
      ]
    ]

    accepts :
        IsAccepted src headers_len body_start req r rest
        → decode_complete h codec src headers_len body_start req ≡ decoded r rest
    unfolding decode_complete split_request
    accepts a = ground (arith)

  pub decode-headers :
      (src : Bytes) → decode h codec src ≡ decode_headers h codec src (find_header_end src)
  unfolding decode decode_headers find_header_end
  decode-headers [] = ground arith
  decode-headers (x ∷ xs) = refl

  -- The parts that a decoded request comes from.
  pub record IsDecoded (src : Bytes) (r : ParsedRequest h) (rest : Bytes) : Type 0 where
    pub header_end : ℕ
    pub body_start : ℕ
    pub req : RawRequest
    pub ended : find_header_end src ≡ some header_end
    pub parsed : h.parse_request (take (header_end + 4) src) ≡ complete body_start req
    pub accepted_parts : IsAccepted src (header_end + 4) body_start req r rest

  decode-forth :
      (src : Bytes) (r : ParsedRequest h) (rest : Bytes)
      → decode h codec src ≡ decoded r rest
      → IsDecoded src r rest
  decode-forth src r rest e = go (find_header_end src) refl (sym (decode-headers src) ∙ e)
    where
      with_parse :
          (n : ℕ) (p : Parse)
          → find_header_end src ≡ some n
          → h.parse_request (take (n + 4) src) ≡ p
          → decode_parsed h codec src (n + 4) p ≡ decoded r rest
          → IsDecoded src r rest
      with_parse n (parse_error text) f q d = absurd (unfold decode_parsed in cc)
      with_parse n partial f q d = absurd (unfold decode_parsed in cc)
      with_parse n (complete body_start req) f q d = record {
        header_end = n;
        body_start = body_start;
        req = req;
        ended = f;
        parsed = q;
        accepted_parts = accepted src (n + 4) body_start req r rest (unfold decode_parsed in d);
      }

      go :
          (o : Option ℕ)
          → find_header_end src ≡ o
          → decode_headers h codec src o ≡ decoded r rest
          → IsDecoded src r rest
      go none f d = absurd (unfold decode_headers in ground arith)
      go (some n) f d =
          with_parse n (h.parse_request (take (n + 4) src)) f refl (unfold decode_headers in d)

  decode-back :
      (src : Bytes) (r : ParsedRequest h) (rest : Bytes)
      → IsDecoded src r rest
      → decode h codec src ≡ decoded r rest
  decode-back src r rest d =
      decode-headers src
      ∙ rw d.ended (
          unfold decode_headers in
          (rw d.parsed (
            unfold decode_parsed in
            accepts src (d.header_end + 4) d.body_start d.req r rest d.accepted_parts)))

  -- A request is decoded exactly if the buffer has a blank line, its headers parse, the length that
  -- they give is within the limit and has arrived, and method and path are valid; its body is what
  -- stands behind the parsed headers up to that length, and exactly the bytes after that are left.
  pub decode-IsDecoded :
      (src : Bytes) (r : ParsedRequest h) (rest : Bytes)
      → (decode h codec src ≡ decoded r rest) ↔ IsDecoded src r rest
  decode-IsDecoded src r rest = (decode-forth src r rest, decode-back src r rest)
