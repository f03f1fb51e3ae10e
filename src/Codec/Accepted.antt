-- ===== src/Codec/Accepted.antt =====
-- src/codec.rs, `decode`: which requests are decoded, by what the buffer has in it.
use kode_bridge.Base.{
  ℕ, ◌+◌, ◌^◌, ◌%◌, ◌<◌, ◌≤◌, ◌≡◌, refl, sym, ap, subst, ◌∙◌, ◌↔◌, ◌⊎◌, inl, inr, Option, none,
  some, List, [], ◌∷◌, length, take, drop, true, ltb, Bool-cases, Option-cases, u64, arith,
}
use kode_bridge.Errors.{ok}
use kode_bridge.Bytes.{Bytes}
use kode_bridge.Codec.{
  Http, HttpIpcCodec, complete, RawHeader, RawRequest, ParsedRequest, decoded, is_header_end,
  find_header_end, content_length_of, header_map_of, method_of, path_of, decode,
}
use kode_bridge.Codec.HeaderEnd.{EndsHeaders, find_header_end-first}
use kode_bridge.Codec.Lengths.{IsBodyLength, content_length_of-IsBodyLength}
use kode_bridge.Codec.Decoding.{total_of, IsDecoded, decode-IsDecoded}

-- A blank line: the line end of the last header, and an empty line.
abbrev pub BlankAt : Bytes → ℕ → Type 0
BlankAt src n = (tail : Bytes) × (drop n src ≡ 13 ∷ 10 ∷ 13 ∷ 10 ∷ tail)

blank_forth :
    (xs : Bytes) → is_header_end xs ≡ true → (tail : Bytes) × (xs ≡ 13 ∷ 10 ∷ 13 ∷ 10 ∷ tail)
unfolding is_header_end
blank_forth (a ∷ b ∷ c ∷ d ∷ rest) e = (
  rest,
  let a_is : a ≡ 13 = ground arith in
      let b_is : b ≡ 10 = ground arith in
      let c_is : c ≡ 13 = ground arith in let d_is : d ≡ 10 = ground arith in cc,
)
blank_forth _ e = cc

blank_back : (src : Bytes) (n : ℕ) → BlankAt src n → EndsHeaders src n
unfolding is_header_end
blank_back src n (tail, is) = ap is_header_end is

-- The first blank line of a buffer.
abbrev pub FirstBlank : Bytes → ℕ → Type 0
FirstBlank src n = BlankAt src n × ((m : ℕ) → m < n → ¬ BlankAt src m)

find_header_end-FirstBlank :
    (src : Bytes) (n : ℕ) → (find_header_end src ≡ some n) ↔ FirstBlank src n
find_header_end-FirstBlank src n = elim (find_header_end-first src) [
  | inr (is_none, never) ↦ (λ e. absurd cc, λ b. absurd (never n (blank_back src n b.0)))
  | inl (m, found, at, before) ↦ (
    λ e.
        let same : m ≡ n = ground (arith, found, e) in
        subst (FirstBlank src) same
          (blank_forth (drop m src) at, λ k less b. before k less (blank_back src k b)),
    λ b. elim (compare m n) [
      | inl less ↦ absurd (b.1 m less (blank_forth (drop m src) at))
      | inr (inl same) ↦ found ∙ ap some same
      | inr (inr more) ↦ absurd (before n more (blank_back src n b.0))
    ],
  )
]
  where
    compare : (m n : ℕ) → (m < n) ⊎ ((m ≡ n) ⊎ (n < m))
    compare m n = elim (Bool-cases (ltb m n)) [
      | inl less ↦ inl (ground arith)
      | inr not_less ↦ elim (Bool-cases (ltb n m)) [
        | inl more ↦ inr (inr (ground arith))
        | inr same ↦ inr (inl (ground arith))
      ]
    ]

module _ (h : Http) where
  -- The headers whose name and value are valid are put in a map one after the other.
  abbrev pub Inserts : h.HeaderMap → List RawHeader → h.HeaderMap → Type 0
  Inserts map [] result = result ≡ map
  Inserts map ((name, value) ∷ rest) result =
      ((n : h.HeaderName) × (v : h.HeaderValue) × (h.parse_name name ≡ some n)
        × (h.parse_value value ≡ some v)
        × Inserts (h.insert map n v) rest result)
      ⊎ (((h.parse_name name ≡ none) ⊎ (h.parse_value value ≡ none)) × Inserts map rest result)

  header_map_of-Inserts :
      (headers : List RawHeader) (map : h.HeaderMap)
      → Inserts map headers (header_map_of h map headers)
  unfolding header_map_of
  header_map_of-Inserts [] map = refl
  header_map_of-Inserts ((name, value) ∷ rest) map = elim (Option-cases (h.parse_name name)) [
    | inl bad ↦ inr (inl bad, rw bad (header_map_of-Inserts rest map))
    | inr (n, name_is) ↦ elim (Option-cases (h.parse_value value)) [
      | inl bad ↦ inr (inr bad, rw (name_is, bad) (header_map_of-Inserts rest map))
      | inr (v, value_is) ↦ inl (
        n,
        v,
        name_is,
        value_is,
        rw (name_is, value_is) (header_map_of-Inserts rest (h.insert map n v)),
      )
    ]
  ]

  Inserts-unique :
      (headers : List RawHeader) (map result : h.HeaderMap)
      → Inserts map headers result
      → result ≡ header_map_of h map headers
  unfolding header_map_of
  Inserts-unique [] map result is = is
  Inserts-unique ((name, value) ∷ rest) map result (inl (n, v, name_is, value_is, later)) =
      rw (name_is, value_is) (Inserts-unique rest (h.insert map n v) result later)
  Inserts-unique ((name, value) ∷ rest) map result (inr (inl bad, later)) =
      rw bad (Inserts-unique rest map result later)
  Inserts-unique ((name, value) ∷ rest) map result (inr (inr bad, later)) =
      elim (Option-cases (h.parse_name name)) [
        | inl bad_name ↦ rw bad_name (Inserts-unique rest map result later)
        | inr (n, name_is) ↦ rw (name_is, bad) (Inserts-unique rest map result later)
      ]

  -- There are bytes, and they are read as a value.
  abbrev pub ReadAs : {A : Type 0} → (Bytes → Option A) → Option Bytes → A → Type 0
  ReadAs read given result = (text : Bytes) × (given ≡ some text) × (read text ≡ some result)

  method_of-ReadAs :
      (given : Option Bytes) (m : h.Method)
      → (method_of h given ≡ ok m) ↔ ReadAs h.method_from_bytes given m
  unfolding method_of
  method_of-ReadAs none m = (λ e. absurd cc, λ r. absurd (ground (arith, r.1)))
  method_of-ReadAs (some text) m = elim (Option-cases (h.method_from_bytes text)) [
    | inl bad ↦ (λ e. absurd (ground (arith, bad)), λ r. absurd (ground (arith, bad, r.1, r.2)))
    | inr (found, is) ↦ (λ e. (text, refl, ground (arith, is)), λ r. ground (arith, is, r.1, r.2))
  ]

  path_of-ReadAs :
      (given : Option Bytes) (u : h.Uri) → (path_of h given ≡ ok u) ↔ ReadAs h.parse_uri given u
  unfolding path_of
  path_of-ReadAs none u = (λ e. absurd cc, λ r. absurd (ground (arith, r.1)))
  path_of-ReadAs (some text) u = elim (Option-cases (h.parse_uri text)) [
    | inl bad ↦ (λ e. absurd (ground (arith, bad)), λ r. absurd (ground (arith, bad, r.1, r.2)))
    | inr (found, is) ↦ (λ e. (text, refl, ground (arith, is)), λ r. ground (arith, is, r.1, r.2))
  ]

  module _ (codec : HttpIpcCodec) where
    -- The buffer begins with a whole request, and `rest` is what follows it.
    pub record BeginsWith (src : Bytes) (r : ParsedRequest h) (rest : Bytes) : Type 0 where
      pub header_end : ℕ
      pub body_start : ℕ
      pub body_length : ℕ
      pub total : ℕ
      pub req : RawRequest
      pub ended : FirstBlank src header_end
      pub parsed : h.parse_request (take (header_end + 4) src) ≡ complete body_start req
      pub announced : IsBodyLength req.headers body_length
      pub total_is : total ≡ (header_end + 4 + body_length) % 2 ^ 64
      pub fits : total ≤ codec.max_request_size
      pub arrived : total ≤ length src
      pub starts_within : body_start ≤ total
      pub method_read : ReadAs h.method_from_bytes req.method r.method
      pub path_read : ReadAs h.parse_uri req.path r.uri
      pub headers_read : Inserts h.empty req.headers r.headers
      pub body_taken : r.body ≡ drop body_start (take total src)
      pub rest_left : rest ≡ drop total src

    IsDecoded-BeginsWith :
        (src : Bytes) (r : ParsedRequest h) (rest : Bytes)
        → IsDecoded h codec src r rest
        → BeginsWith src r rest
    IsDecoded-BeginsWith src r rest d =
        let a = d.accepted_parts in
        record {
          header_end = d.header_end;
          body_start = d.body_start;
          body_length = content_length_of 0 d.req.headers;
          total = total_of (d.header_end + 4) d.req;
          req = d.req;
          ended = (find_header_end-FirstBlank src d.header_end).0 d.ended;
          parsed = d.parsed;
          announced =
              (content_length_of-IsBodyLength d.req.headers (content_length_of 0 d.req.headers)).0
                refl;
          total_is = refl;
          fits = a.fits;
          arrived = a.arrived;
          starts_within = a.within;
          method_read = (method_of-ReadAs d.req.method r.method).0 a.method_read;
          path_read = (path_of-ReadAs d.req.path r.uri).0 a.path_read;
          headers_read =
              subst (Inserts h.empty d.req.headers) (sym a.headers_read)
                (header_map_of-Inserts d.req.headers h.empty);
          body_taken = a.body_taken;
          rest_left = a.rest_left;
        }

    BeginsWith-IsDecoded :
        (src : Bytes) (r : ParsedRequest h) (rest : Bytes)
        → BeginsWith src r rest
        → IsDecoded h codec src r rest
    BeginsWith-IsDecoded src r rest b =
        let len = (content_length_of-IsBodyLength b.req.headers b.body_length).1 b.announced in
        let same : b.total ≡ total_of (b.header_end + 4) b.req =
          b.total_is ∙ ap (λ n. u64 (b.header_end + 4 + n)) (sym len) in
        record {
          header_end = b.header_end;
          body_start = b.body_start;
          req = b.req;
          ended = (find_header_end-FirstBlank src b.header_end).1 b.ended;
          parsed = b.parsed;
          accepted_parts = record {
            fits = subst (λ n. n ≤ codec.max_request_size) same b.fits;
            arrived = subst (λ n. n ≤ length src) same b.arrived;
            within = subst (λ n. b.body_start ≤ n) same b.starts_within;
            method_read = (method_of-ReadAs b.req.method r.method).1 b.method_read;
            path_read = (path_of-ReadAs b.req.path r.uri).1 b.path_read;
            headers_read = Inserts-unique b.req.headers h.empty r.headers b.headers_read;
            body_taken = b.body_taken ∙ ap (λ n. drop b.body_start (take n src)) same;
            rest_left = b.rest_left ∙ ap (λ n. drop n src) same;
          };
        }

    -- A request is decoded exactly if the buffer has a blank line, the bytes up to the first one
    -- parse, the total length is within the limit, has arrived and reaches to the end of the parsed
    -- headers, and method and path are given and valid. The total is the length up to behind the
    -- blank line and that of the body, modulo 2^64; the length of the body is what the last
    -- `Content-Length` that is a number says, or zero. The body is what stands behind the parsed
    -- headers up to the total, exactly the bytes after that are left, and the header map has the
    -- headers whose name and value are valid.
    pub decode-BeginsWith :
        (src : Bytes) (r : ParsedRequest h) (rest : Bytes)
        → (decode h codec src ≡ decoded r rest) ↔ BeginsWith src r rest
    decode-BeginsWith src r rest =
        let (forth, back) = decode-IsDecoded h codec src r rest in
        (
          λ e. IsDecoded-BeginsWith src r rest (forth e),
          λ b. back (BeginsWith-IsDecoded src r rest b),
        )
