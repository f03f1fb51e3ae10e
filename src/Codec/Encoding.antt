-- ===== src/Codec/Encoding.antt =====
-- src/codec.rs, `encode`: how a reader finds the body of a written response.
use mathlib.Core.List.{append_assoc}
use kode_bridge.Base.{
  ℕ, zero, suc, ◌+◌, ◌%◌, ◌/◌, ◌≡◌, refl, sym, subst, ◌⊎◌, inl, inr, true, false, some, List, [],
  ◌∷◌, ◌++◌, length, All, All-append, Bool-cases, ◌==◌, if◌then◌else◌, arith,
}
use kode_bridge.Bytes.{
  Bytes, bytes, eq_ignore_ascii_case, parse_usize, to_decimal, decimal, to_lower,
}
use kode_bridge.Codec.{
  Http, RawHeader, HttpResponse, encode_headers, has_content_length, content_length_of, reason_of,
  encode,
}
use kode_bridge.Codec.Framing.{NoCr, IsHeader, head}

abbrev pub length_header : Bytes → RawHeader
length_header body = (bytes "Content-Length", to_decimal (length body))

-- The header lines that are written: the response's, and the length where they do not give it.
abbrev pub sent_headers : List RawHeader → Bytes → List RawHeader
sent_headers headers body = elim (has_content_length headers) [
  | true ↦ headers
  | false ↦ headers ++ (length_header body ∷ [])
]

sent_headers-given :
    (headers : List RawHeader) (body : Bytes)
    → has_content_length headers ≡ true
    → sent_headers headers body ≡ headers
sent_headers-given headers body e = ground (arith, e)

sent_headers-added :
    (headers : List RawHeader) (body : Bytes)
    → has_content_length headers ≡ false
    → sent_headers headers body ≡ headers ++ (length_header body ∷ [])
sent_headers-added headers body e = ground (arith, e)

encode_headers-append :
    (xs ys : List RawHeader) → encode_headers (xs ++ ys) ≡ encode_headers xs ++ encode_headers ys
unfolding encode_headers
encode_headers-append [] ys = refl
encode_headers-append ((key, value) ∷ xs) ys = simp (append_assoc, encode_headers-append xs ys)

decimal-NoCr : (fuel n : ℕ) (rest : Bytes) → NoCr rest → NoCr (decimal fuel n rest)
unfolding decimal
decimal-NoCr zero n rest h = h
decimal-NoCr (suc fuel) n rest h = elim (Bool-cases (n / 10 == 0)) [
  | inl e ↦ rw e (omega arith, h)
  | inr e ↦ rw e (decimal-NoCr fuel (n / 10) ((48 + n % 10) ∷ rest) (omega arith, h))
]

-- Names that differ in case only are the same to the reader.
eq_ignore_ascii_case-same :
    (xs ys zs : Bytes)
    → eq_ignore_ascii_case ys zs ≡ true
    → eq_ignore_ascii_case xs ys ≡ eq_ignore_ascii_case xs zs
unfolding eq_ignore_ascii_case
eq_ignore_ascii_case-same [] [] [] h = refl
eq_ignore_ascii_case-same [] (y ∷ ys) (z ∷ zs) h = refl
eq_ignore_ascii_case-same (x ∷ xs) [] [] h = refl
eq_ignore_ascii_case-same (x ∷ xs) (y ∷ ys) (z ∷ zs) h =
    ground (arith, eq_ignore_ascii_case-same xs ys zs)
eq_ignore_ascii_case-same xs [] (z ∷ zs) h = absurd cc
eq_ignore_ascii_case-same xs (y ∷ ys) [] h = absurd cc

-- Where no header gives a length, the one behind them counts.
content_length_of-last :
    (headers : List RawHeader) (found : ℕ) (value : Bytes) (n : ℕ)
    → has_content_length headers ≡ false
    → parse_usize value ≡ some n
    → content_length_of found (headers ++ ((bytes "Content-Length", value) ∷ [])) ≡ n
unfolding content_length_of has_content_length
content_length_of-last [] found value n h p = unfold eq_ignore_ascii_case to_lower in (rw p refl)
content_length_of-last ((key, v) ∷ headers) found value n h p =
    let same =
      eq_ignore_ascii_case-same key (bytes "content-length") (bytes "Content-Length")
        (unfold eq_ignore_ascii_case to_lower in refl) in
    let other : eq_ignore_ascii_case key (bytes "Content-Length") ≡ false = ground (arith, same) in
    rw (content_length_of, other)
      (content_length_of-last headers found value n (ground (arith, same)) p)

module _ (h : Http) where
  abbrev pub status_line : ℕ → Bytes
  status_line status = bytes "HTTP/1.1 " ++ (to_decimal status ++ (bytes " " ++ reason_of h status))

  pub encode-head :
      (item : HttpResponse h)
      → encode h item []
        ≡ head (status_line item.status) (sent_headers (h.iter item.headers) item.body) ++ item.body
  unfolding encode encode_headers to_decimal
  encode-head item =
      let headers = h.iter item.headers in
      elim (Bool-cases (has_content_length headers)) [
        | inl e ↦
            rw (sent_headers-given headers item.body e) (simp (append_assoc, e, if◌then◌else◌))
        | inr e ↦
            rw
              (
                sent_headers-added headers item.body e,
                encode_headers-append headers (length_header item.body ∷ []),
              )
              (simp (append_assoc, e, if◌then◌else◌, encode_headers))
      ]

  pub status_line-IsLine : (status : ℕ) → NoCr (reason_of h status) → NoCr (status_line status)
  status_line-IsLine status r =
      unfold to_decimal in
      (All-append _ (bytes "HTTP/1.1 ") _ (omega arith)
        (All-append _ (to_decimal status) _ (decimal-NoCr 20 status [] tt) (omega arith, r)))

  pub sent_headers-IsHeader :
      (headers : List RawHeader) (body : Bytes)
      → All IsHeader headers
      → All IsHeader (sent_headers headers body)
  unfolding to_decimal
  sent_headers-IsHeader headers body hs = elim (Bool-cases (has_content_length headers)) [
    | inl e ↦ subst (All IsHeader) (sym (sent_headers-given headers body e)) hs
    | inr e ↦
        subst (All IsHeader) (sym (sent_headers-added headers body e))
          (All-append _ headers _ hs ((omega arith, decimal-NoCr 20 (length body) [] tt), tt))
  ]

  -- How a response is written: with its own header lines, and where they give no length with a line
  -- behind them whose number is read as the length of the body.
  abbrev pub IsWritten : HttpResponse h → Type 0
  IsWritten item =
      let headers = h.iter item.headers in
      ((has_content_length headers ≡ true)
        × (encode h item [] ≡ head (status_line item.status) headers ++ item.body))
      ⊎ ((has_content_length headers ≡ false)
          × ((digits : Bytes) × (parse_usize digits ≡ some (length item.body))
              × (encode h item []
                  ≡ head (status_line item.status)
                      (headers ++ ((bytes "Content-Length", digits) ∷ []))
                    ++ item.body)))
