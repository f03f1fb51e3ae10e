-- ===== src/HttpClient/Body.antt =====
-- src/http_client.rs, `parse_response`: its body is as long as its headers say.
use kode_bridge.Base.{
  ◌⊎◌, ℕ, ◌*◌, ◌≤◌, ◌≡◌, refl, sym, ap, ◌∙◌, inl, inr, true, false, Option, none, some, List, ◌++◌,
  length, length-take, take, Bool-cases, Option-cases, ltb, leb, ◌==◌, arith,
}
use kode_bridge.Errors.{Result, ok, err, Result-cases}
use kode_bridge.Bytes.{Bytes, crlf}
use kode_bridge.Codec.{RawHeader}
use kode_bridge.HttpClient.Reader.{Utf8, Read, read_exact, read_fixed_body}
use kode_bridge.HttpClient.Response.{
  ParseError, Crates, Response, read_head, parse_head, build_headers, content_length, is_chunked,
  body_mode, read_body, with_body, respond, parse_response,
}

length-read_fixed_body :
    (n : ℕ) (stream body rest : Bytes)
    → read_fixed_body n stream ≡ ok (body, rest)
    → length body ≡ n
unfolding read_fixed_body read_exact
length-read_fixed_body n stream body rest e = elim (Bool-cases (leb n (length stream))) [
  | inr short ↦ absurd (ground (arith, short))
  | inl enough ↦
      let same : take n stream ≡ body = ground (arith, enough) in
      let le : n ≤ length stream = ground arith in
      omega (arith, ap length same, length-take n stream)
]

module _ (c : Crates) (u : Utf8) (reads : Bytes → List Read) where
  -- A body that is read under a length has that length, which is at most 10 MiB.
  pub length-read_body :
      (n : ℕ) (stream body : Bytes)
      → read_body c u reads (body_mode c false (some n)) stream ≡ some (ok body)
      → (length body ≡ n) × (n ≤ 10 * 1024 * 1024)
  unfolding read_body body_mode
  length-read_body n stream body e = elim (Bool-cases (n == 0)) [
    | inl zero ↦ ground (arith, zero)
    | inr some_bytes ↦ elim (Bool-cases (ltb (10 * 1024 * 1024) n)) [
      | inl large ↦ absurd (ground (arith, some_bytes, large))
      | inr fits ↦ elim (Result-cases (read_fixed_body n stream)) [
        | inr (x, is) ↦ absurd (ground (arith, some_bytes, fits, is))
        | inl ((found, rest), is) ↦
            let same : found ≡ body = ground (arith, some_bytes, fits, is) in
            let len = length-read_fixed_body n stream found rest is in
            (omega (arith, ap length same), ground arith)
      ]
    ]
  ]

  -- What a response comes from: the head of the stream, and the body that stands behind it, which is
  -- read as the headers of the response say. A length is valid where there is one.
  pub record IsResponse (stream : Bytes) (r : Response c) : Type 0 where
    pub buffer : Bytes
    pub rest : Bytes
    pub head_headers : List RawHeader
    pub length_read : Option ℕ
    pub head_read : read_head u stream ≡ some (ok (buffer, rest))
    pub head_parsed : parse_head c (buffer ++ crlf) ≡ inr (r.status, head_headers)
    pub headers_valid : build_headers c c.empty head_headers ≡ ok r.headers
    pub length_valid : content_length c r.headers ≡ ok length_read
    pub status_valid : c.valid_status r.status ≡ true
    pub body_read :
        read_body c u reads (body_mode c (is_chunked c r.headers) length_read) rest
        ≡ some (ok r.body)

  with_body_ok :
      (status : ℕ) (map : c.HeaderMap) (b : Option (Result Bytes)) (r : Response c)
      → with_body c u reads status map b ≡ some (ok r)
      → (status ≡ r.status)
        × (map ≡ r.headers)
        × (c.valid_status status ≡ true)
        × (b ≡ some (ok r.body))
  unfolding with_body
  with_body_ok status map none r e = absurd cc
  with_body_ok status map (some (err x)) r e = absurd cc
  with_body_ok status map (some (ok body)) r e = elim (Bool-cases (c.valid_status status)) [
    | inl valid ↦ ground (arith, valid)
    | inr invalid ↦ absurd (ground (arith, invalid))
  ]

  respond_ok :
      (stream buffer rest : Bytes) (r : Response c)
      → read_head u stream ≡ some (ok (buffer, rest))
      → respond c u reads (buffer ++ crlf) rest ≡ some (ok r)
      → IsResponse stream r
  unfolding respond
  respond_ok stream buffer rest r h e = head_cases (parse_head c (buffer ++ crlf)) refl
    where
      finish :
          (status : ℕ) (headers : List RawHeader) (map : c.HeaderMap) (len : Option ℕ)
          → parse_head c (buffer ++ crlf) ≡ inr (status, headers)
          → build_headers c c.empty headers ≡ ok map
          → content_length c map ≡ ok len
          → with_body c u reads status map
              (read_body c u reads (body_mode c (is_chunked c map) len) rest)
            ≡ some (ok r)
          → IsResponse stream r
      finish status headers map len p b l w =
          let (status_is, map_is, valid, body_is) =
            with_body_ok status map (read_body c u reads (body_mode c (is_chunked c map) len) rest)
              r w in
          record {
            buffer = buffer;
            rest = rest;
            head_headers = headers;
            length_read = len;
            head_read = h;
            head_parsed = p ∙ ap (λ s. inr (s, headers)) status_is;
            headers_valid = b ∙ ap ok map_is;
            length_valid = ap (content_length c) (sym map_is) ∙ l;
            status_valid = ap c.valid_status (sym status_is) ∙ valid;
            body_read =
                ap (λ m. read_body c u reads (body_mode c (is_chunked c m) len) rest) (sym map_is)
                ∙ body_is;
          }

      head_cases :
          (head : ParseError ⊎ (ℕ × List RawHeader))
          → parse_head c (buffer ++ crlf) ≡ head
          → IsResponse stream r
      head_cases (inl x) p = absurd (ground (arith, p))
      head_cases (inr (status, headers)) p = elim (Result-cases (build_headers c c.empty headers)) [
        | inr (x, b) ↦ absurd (ground (arith, p, b))
        | inl (map, b) ↦ elim (Result-cases (content_length c map)) [
          | inr (x, l) ↦ absurd (ground (arith, p, b, l))
          | inl (len, l) ↦ finish status headers map len p b l (ground (arith, p, b, l))
        ]
      ]

  -- A response is returned only if its head was read and parsed, its status, headers and length are
  -- valid, and its body was read as its headers say.
  pub parse_response-IsResponse :
      (stream : Bytes) (r : Response c)
      → parse_response c u reads stream ≡ some (ok r)
      → IsResponse stream r
  unfolding parse_response
  parse_response-IsResponse stream r e = elim (Option-cases (read_head u stream)) [
    | inl is ↦ absurd (ground (arith, is))
    | inr (answer, is) ↦ elim (Result-cases answer) [
      | inr (x, is_err) ↦ absurd (ground (arith, is, is_err))
      | inl ((buffer, rest), is_ok) ↦
          respond_ok stream buffer rest r (is ∙ ap some is_ok) (ground (arith, is, is_ok))
    ]
  ]

  -- The body of a response that is not chunked and gives its length has that length, which is at
  -- most 10 MiB: a body that is cut off is never returned.
  pub length-parse_response :
      (stream : Bytes) (r : Response c) (n : ℕ)
      → parse_response c u reads stream ≡ some (ok r)
      → is_chunked c r.headers ≡ false
      → content_length c r.headers ≡ ok (some n)
      → (length r.body ≡ n) × (n ≤ 10 * 1024 * 1024)
  length-parse_response stream r n e plain given =
      let i = parse_response-IsResponse stream r e in
      let same : i.length_read ≡ some n = cc in
      length-read_body n i.rest r.body (
        ap (λ m. read_body c u reads m i.rest)
          (sym (ap (λ b. body_mode c b i.length_read) plain ∙ ap (body_mode c false) same))
        ∙ i.body_read)
