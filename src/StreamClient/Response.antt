-- ===== src/StreamClient/Response.antt =====
-- src/stream_client.rs, `parse_streaming_response`: what a streamed response comes from.
use kode_bridge.Base.{
  ℕ, suc, zero, ◌+◌, ◌≡◌, refl, sym, ap, ◌∙◌, inl, inr, true, some, [], ◌∷◌, ◌++◌, length, take,
  Option-cases, Bool-cases, arith, String,
}
use kode_bridge.Errors.{KodeBridgeError, protocol, Result, ok, err}
use kode_bridge.Bytes.{Bytes}
use kode_bridge.Codec.{find_header_end}
use kode_bridge.HttpClient.Reader.{Answer}
use kode_bridge.HttpClient.Response.{
  ParseError, Crates, RawResponse, ParsedHead, failed, partial, complete, build_headers,
}
use kode_bridge.StreamClient.Head.{
  StreamingResponse, streaming_response, parse_streaming_head, parse_streaming_response,
  read_streaming_head,
}
use kode_bridge.StreamClient.Boundary.{
  IsHead, no_blank_line, up_to_blank_line, read_streaming_head-IsHead,
}

take-length : (n : ℕ) (xs : Bytes) → length xs ≡ n → take n xs ≡ xs
take-length zero [] e = refl
take-length (suc n) [] e = refl
take-length zero (x ∷ xs) e = absurd (omega arith)
take-length (suc n) (x ∷ xs) e = ap (λ l. x ∷ l) (take-length n xs (omega arith))

err_not_ok : {A : Type 0} (x : KodeBridgeError) (v : A) → ¬ (◌≡◌ {A = Result A} (err x) (ok v))
err_not_ok x v e = cc

module _ (c : Crates) where
  -- The head that the parser took whole, its status and headers, and the body that follows it.
  pub record IsParsed (head : Bytes) (r : StreamingResponse c) : Type 0 where
    pub raw : RawResponse
    pub parsed : c.parse 64 head ≡ complete raw
    pub coded : raw.code ≡ some r.status
    pub headers_valid : build_headers c c.empty raw.headers ≡ ok r.headers
    pub status_valid : c.valid_status r.status ≡ true

  -- A response whose head is the stream up to its first blank line; its lines come from the bytes
  -- that follow.
  pub record IsStreamed (stream : Bytes) (r : StreamingResponse c) : Type 0 where
    pub blank_line : ℕ
    pub head : Bytes
    pub found : find_header_end stream ≡ some blank_line
    pub length_head : length head ≡ blank_line + 4
    pub split : head ++ r.stream ≡ stream
    pub head_parsed : IsParsed head r

  streaming_response_ok :
      (status : ℕ) (map : Result (c.HeaderMap)) (rest : Bytes) (r : StreamingResponse c)
      → streaming_response c status map rest ≡ ok r
      → (r.status ≡ status)
        × (map ≡ ok r.headers)
        × (c.valid_status r.status ≡ true)
        × (r.stream ≡ rest)
  unfolding streaming_response
  streaming_response_ok status (err e) rest r is = absurd cc
  streaming_response_ok status (ok map) rest r is = elim (Bool-cases (c.valid_status status)) [
    | inl valid ↦ ground (arith, valid)
    | inr invalid ↦ absurd (ground (arith, invalid))
  ]

  module _ (display : ParseError → String) where
    parse_streaming_head-IsParsed :
        (head rest : Bytes) (r : StreamingResponse c)
        → parse_streaming_head c display head rest ≡ ok r
        → IsParsed head r × (r.stream ≡ rest)
    parse_streaming_head-IsParsed head rest r is = parsed_as (c.parse 64 head) refl
      where
        parsed_as : (p : ParsedHead) → c.parse 64 head ≡ p → IsParsed head r × (r.stream ≡ rest)
        parsed_as (failed e) p = absurd (unfold parse_streaming_head in ground (arith, p))
        parsed_as partial p = absurd (unfold parse_streaming_head in ground (arith, p))
        parsed_as (complete raw) p = elim (Option-cases raw.code) [
          | inl n ↦ absurd (unfold parse_streaming_head in ground (arith, p, n))
          | inr (code, has) ↦
              let (status_is, map_is, valid, rest_is) =
                streaming_response_ok code (build_headers c c.empty raw.headers) rest r
                  (unfold parse_streaming_head in ground (arith, p, has)) in
              (
                record {
                  raw = raw;
                  parsed = p;
                  coded = has ∙ ap some (sym status_is);
                  headers_valid = map_is;
                  status_valid = valid;
                },
                rest_is,
              )
        ]

    -- Reading the head of a streamed response ends on every stream, and gives a response only if the
    -- stream has a blank line, its first one ends the head, the parser takes the head whole, and its
    -- status and headers are valid; the body begins with the byte that follows.
    parse_streaming_response-IsStreamed :
        (stream : Bytes)
        → (answer : Result (StreamingResponse c)) × (parse_streaming_response c display stream
            ≡ some answer)
          × ((r : StreamingResponse c) → answer ≡ ok r → IsStreamed stream r)
    unfolding parse_streaming_response
    parse_streaming_response-IsStreamed stream =
        from_head (read_streaming_head stream) refl (read_streaming_head-IsHead stream)
      where
        from_head :
            (found : Answer (Bytes × ℕ))
            → read_streaming_head stream ≡ found
            → IsHead stream found
            → (answer : Result (StreamingResponse c)) × (parse_streaming_response c display stream
                ≡ some answer)
              × ((r : StreamingResponse c) → answer ≡ ok r → IsStreamed stream r)
        from_head _ is (no_blank_line n) = (
          err (protocol "Unexpected end of stream"),
          ground (arith, is),
          λ r e. absurd (err_not_ok (protocol "Unexpected end of stream") r e),
        )
        from_head _ is (up_to_blank_line n head rest found split len) = (
          parse_streaming_head c display head rest,
          rw (parse_streaming_response, is, take-length (n + 4) head len) refl,
          λ r e.
              let (parsed, rest_is) = parse_streaming_head-IsParsed head rest r e in
              record {
                blank_line = n;
                head = head;
                found = found;
                length_head = len;
                split = ap (λ l. head ++ l) rest_is ∙ split;
                head_parsed = parsed;
              },
        )
