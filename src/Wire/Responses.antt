-- ===== src/Wire/Responses.antt =====
-- src/codec.rs, `encode`, and src/stream_client.rs, `parse_streaming_response`: a response from the
-- server to a client that streams it.
use kode_bridge.Base.{
  ℕ, ◌+◌, ◌≡◌, refl, sym, ap, ◌∙◌, some, true, String, [], ◌∷◌, ◌++◌, length, length-append, take,
  drop, drop-at, All, arith,
}
use kode_bridge.Errors.{ok}
use kode_bridge.Bytes.{Bytes}
use kode_bridge.Codec.{Http, HttpResponse, encode, find_header_end, reason_of}
use kode_bridge.Codec.Framing.{NoCr, IsHeader, head, find_header_end-head}
use kode_bridge.Codec.Encoding.{
  sent_headers, status_line, encode-head, status_line-IsLine, sent_headers-IsHeader,
}
use kode_bridge.HttpClient.Reader.{Answer}
use kode_bridge.HttpClient.Chunks.{take-length}
use kode_bridge.HttpClient.Response.{ParseError, Crates, RawResponse, complete, build_headers}
use kode_bridge.StreamClient.Head.{
  streaming_response, parse_streaming_head, parse_streaming_response, read_streaming_head,
}
use kode_bridge.StreamClient.Boundary.{
  IsHead, no_blank_line, up_to_blank_line, read_streaming_head-IsHead,
}

-- Where the first blank line of a stream ends `block`, the head that is read is `block`, and the rest
-- of the stream is left.
read_block :
    (block rest : Bytes) (n : ℕ)
    → find_header_end (block ++ rest) ≡ some n
    → n + 4 ≡ length block
    → read_streaming_head (block ++ rest) ≡ some (ok ((block, length block), rest))
read_block block rest n found len =
    from_head (read_streaming_head (block ++ rest)) (read_streaming_head-IsHead (block ++ rest))
  where
    from_head :
        (answer : Answer (Bytes × ℕ))
        → IsHead (block ++ rest) answer
        → answer ≡ some (ok ((block, length block), rest))
    from_head _ (no_blank_line none_found) = absurd cc
    from_head _ (up_to_blank_line m first later found' split len') =
        let same_end : some m ≡ some n = sym found' ∙ found in
        let m_is : m ≡ n = cc in
        let len_is : length first ≡ length block = omega (arith, len, len', m_is) in
        let first_is : first ≡ block =
          sym (take-length first later)
          ∙ ap (λ k. take k (first ++ later)) len_is
          ∙ ap (take (length block)) split
          ∙ take-length block rest in
        let later_is : later ≡ rest =
          sym (drop-at (length first) first later refl)
          ∙ ap (λ k. drop k (first ++ later)) len_is
          ∙ ap (drop (length block)) split
          ∙ drop-at (length block) block rest refl in
        let end_is : m + 4 ≡ length block = omega (arith, len, m_is) in
        ap (λ f. some (ok ((f, m + 4), later))) first_is
        ∙ ap (λ k. some (ok ((block, k), later))) end_is
        ∙ ap (λ l. some (ok ((block, length block), l))) later_is

module _ (h : Http) (c : Crates) (display : ParseError → String) (item : HttpResponse h) where
  -- The header block of the response.
  abbrev pub block_of : Bytes
  block_of = head (status_line h item.status) (sent_headers (h.iter item.headers) item.body)

  -- A response that is well-formed, whose head the client's parser takes whole; the status and the
  -- headers that it finds are valid.
  pub record IsReadable (raw : RawResponse) (status : ℕ) (map : c.HeaderMap) : Type 0 where
    pub headers_are_lines : All IsHeader (h.iter item.headers)
    pub reason_is_line : NoCr (reason_of h item.status)
    pub parsed : c.parse 64 block_of ≡ complete raw
    pub coded : raw.code ≡ some status
    pub headers_valid : build_headers c c.empty raw.headers ≡ ok map
    pub status_valid : c.valid_status status ≡ true

  encode_read :
      All IsHeader (h.iter item.headers)
      → NoCr (reason_of h item.status)
      → read_streaming_head (encode h item []) ≡ some (ok ((block_of, length block_of), item.body))
  encode_read lines reason =
      let headers = sent_headers (h.iter item.headers) item.body in
      let (n, found, len) =
        find_header_end-head headers (status_line h item.status) item.body
          (status_line-IsLine h item.status reason)
          (sent_headers-IsHeader h (h.iter item.headers) item.body lines) in
      ap read_streaming_head (encode-head h item)
      ∙ read_block block_of item.body n found (omega (arith, len, length-append block_of item.body))

  parse_block :
      (raw : RawResponse) (status : ℕ) (map : c.HeaderMap)
      → IsReadable raw status map
      → parse_streaming_head c display block_of item.body
        ≡ ok (record { status = status; headers = map; stream = item.body })
  unfolding parse_streaming_head streaming_response
  parse_block raw status map r =
      rw
        (
          parse_streaming_head, r.parsed, r.coded, r.headers_valid, streaming_response,
          r.status_valid,
        )
        refl

  take_all : (xs : Bytes) → take (length xs) xs ≡ xs
  take_all [] = refl
  take_all (x ∷ xs) = ap (λ l. x ∷ l) (take_all xs)

  -- What the server encodes, a client that streams it reads as the status and the headers that its
  -- parser finds in the head, and with exactly the body of the response left to be streamed.
  pub parse_streaming_response-encode :
      (raw : RawResponse) (status : ℕ) (map : c.HeaderMap)
      → IsReadable raw status map
      → parse_streaming_response c display (encode h item [])
        ≡ some (ok (record { status = status; headers = map; stream = item.body }))
  unfolding parse_streaming_response
  parse_streaming_response-encode raw status map r =
      rw
        (
          parse_streaming_response,
          encode_read r.headers_are_lines r.reason_is_line,
          take_all block_of,
        )
        (ap some (parse_block raw status map r))
