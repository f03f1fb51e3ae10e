-- ===== src/HttpClient/ChunkedBody.antt =====
-- src/http_client.rs, `read_chunked_body`: a whole chunked body is read back, to its last byte.
use mathlib.Core.List.{append_assoc, append-nil}
use kode_bridge.Base.{
  ℕ, zero, suc, ◌+◌, ◌≤◌, ◌<◌, ◌≡◌, refl, sym, ap, ◌∙◌, Bool, true, false, some, List, [], ◌∷◌,
  ◌++◌, length, length-append, All, ◌==◌, arith,
}
use kode_bridge.Errors.{ok}
use kode_bridge.Bytes.{Bytes}
use kode_bridge.HttpClient.Reader.{
  returned, Utf8, is_blank, read_trailers, finish_body, chunk_loop, read_chunked_body,
}
use kode_bridge.HttpClient.Chunks.{
  IsText, cr_of, put_line, SizeLine, text_of, IsSizeLine, Chunk, IsChunk, IsTrailer, put_chunks,
  put_trailers, payloads, read_line-put_line, text_of-IsText, chunk_size-line, read_chunk-put,
  strip_suffix-append,
}

-- A line that was read is not empty.
line-some : (text : Bytes) → (length (text ++ (10 ∷ [])) == 0) ≡ false
line-some [] = refl
line-some (c ∷ cs) = ground arith

is_blank-trailer :
    (t : Bytes) → 1 ≤ length t → IsText t → is_blank ((t ++ cr_of true) ++ (10 ∷ [])) ≡ false
unfolding is_blank
is_blank-trailer [] h i = absurd (omega arith)
is_blank-trailer (c ∷ []) h i = refl
is_blank-trailer (c ∷ d ∷ ds) h i = is_blank-long c d ds
  where
    is_blank-long :
        (c d : ℕ) (ds : Bytes) → is_blank ((c ∷ d ∷ (ds ++ cr_of true)) ++ (10 ∷ [])) ≡ false
    is_blank-long c d [] = refl
    is_blank-long c d (e ∷ es) = refl

module _ (u : Utf8) (blank : u.is_utf8 (13 ∷ 10 ∷ []) ≡ true) where
  read_trailers-put :
      (trailers : List Bytes) (tail : Bytes) (fuel : ℕ)
      → All (IsTrailer u) trailers
      → length trailers < fuel
      → read_trailers fuel u (put_trailers trailers tail) ≡ some (ok (tt, tail))
  unfolding read_trailers
  read_trailers-put trailers tail zero hs h = absurd (omega arith)
  read_trailers-put [] tail (suc fuel) hs h =
      rw (read_trailers, read_line-put_line u [] true tail tt blank) (unfold is_blank in refl)
  read_trailers-put (t ∷ ts) tail (suc fuel) hs h =
      let (text, (some_text, readable)) = hs.0 in
      rw
        (
          read_trailers,
          read_line-put_line u t true (put_trailers ts tail) text readable,
          line-some (t ++ cr_of true),
          is_blank-trailer t some_text text,
          strip_suffix-append 10 (t ++ cr_of true),
        )
        (read_trailers-put ts tail fuel hs.1 (omega arith))

  chunk_loop-last :
      (fuel : ℕ) (body : Bytes) (l : SizeLine) (trailers : List Bytes) (tail : Bytes)
      → IsSizeLine u l 0
      → All (IsTrailer u) trailers
      → length trailers < suc fuel
      → chunk_loop (suc fuel) u body (put_line (text_of l) l.cr (put_trailers trailers tail))
        ≡ returned (ok (body, tail))
  unfolding chunk_loop finish_body
  chunk_loop-last fuel body l trailers tail i hs h =
      rw
        (
          chunk_loop,
          read_line-put_line u (text_of l) l.cr (put_trailers trailers tail)
              (text_of-IsText u l 0 i) i.readable,
          line-some (text_of l ++ cr_of l.cr),
          chunk_size-line u l 0 i,
          read_trailers-put trailers tail (suc fuel) hs h,
        )
        refl

  chunk_loop-chunk :
      (fuel : ℕ) (body : Bytes) (c : Chunk) (tail : Bytes)
      → IsChunk u c
      → chunk_loop (suc fuel) u body (put_chunks (c ∷ []) tail)
        ≡ chunk_loop fuel u (body ++ c.payload) tail
  unfolding chunk_loop
  chunk_loop-chunk fuel body c tail (i, some_bytes, small) =
      let l = c.size_line in
      let n = length c.payload in
      let more : (n == 0) ≡ false = ground arith in
      rw
        (
          chunk_loop,
          read_line-put_line u (text_of l) l.cr (c.payload ++ put_line [] c.payload_cr tail)
              (text_of-IsText u l n i) i.readable,
          line-some (text_of l ++ cr_of l.cr),
          chunk_size-line u l n i,
          more,
          read_chunk-put c.payload c.payload_cr tail small,
        )
        refl

  chunk_loop-put :
      (chunks : List Chunk) (fuel : ℕ) (body : Bytes) (l : SizeLine) (trailers : List Bytes)
      (tail : Bytes)
      → All (IsChunk u) chunks
      → IsSizeLine u l 0
      → All (IsTrailer u) trailers
      → length chunks + length trailers < fuel
      → chunk_loop fuel u body
          (put_chunks chunks (put_line (text_of l) l.cr (put_trailers trailers tail)))
        ≡ returned (ok (body ++ payloads chunks, tail))
  chunk_loop-put chunks zero body l trailers tail cs i hs h = absurd (omega arith)
  chunk_loop-put [] (suc fuel) body l trailers tail cs i hs h =
      chunk_loop-last fuel body l trailers tail i hs (omega arith)
      ∙ ap (λ b. returned (ok (b, tail))) (sym (append-nil body))
  chunk_loop-put (c ∷ chunks) (suc fuel) body l trailers tail cs i hs h =
      chunk_loop-chunk fuel body c
        (put_chunks chunks (put_line (text_of l) l.cr (put_trailers trailers tail))) cs.0
      ∙ chunk_loop-put chunks fuel (body ++ c.payload) l trailers tail cs.1 i hs (omega arith)
      ∙ ap (λ b. returned (ok (b, tail))) (append_assoc body c.payload (payloads chunks))

  length-put_trailers :
      (trailers : List Bytes) (tail : Bytes) → length trailers ≤ length (put_trailers trailers tail)
  length-put_trailers [] tail = omega arith
  length-put_trailers (t ∷ ts) tail =
      omega (arith, length-put_trailers ts tail, length-append t (13 ∷ 10 ∷ put_trailers ts tail))

  length-put_line :
      (text : Bytes) (cr : Bool) (tail : Bytes) → suc (length tail) ≤ length (put_line text cr tail)
  length-put_line text true tail = omega (arith, length-append text (13 ∷ 10 ∷ tail))
  length-put_line text false tail = omega (arith, length-append text (10 ∷ tail))

  length-put_chunks :
      (chunks : List Chunk) (tail : Bytes)
      → length chunks + length tail ≤ length (put_chunks chunks tail)
  length-put_chunks [] tail = omega arith
  length-put_chunks (c ∷ cs) tail =
      let later = put_line [] c.payload_cr (put_chunks cs tail) in
      omega (
        arith,
        length-put_chunks cs tail,
        length-put_line [] c.payload_cr (put_chunks cs tail),
        length-append c.payload later,
        length-put_line (text_of c.size_line) c.size_line.cr (c.payload ++ later),
      )

  -- A body that is sent as non-empty chunks, each shorter than 2^63, a last chunk of size zero and trailers is read as the
  -- bytes of the chunks, and what stands behind its last line is left: sizes may have extensions,
  -- and lines and chunks may end in CRLF or in a bare LF.
  pub read_chunked_body-put :
      (chunks : List Chunk) (l : SizeLine) (trailers : List Bytes) (tail : Bytes)
      → All (IsChunk u) chunks
      → IsSizeLine u l 0
      → All (IsTrailer u) trailers
      → read_chunked_body u
          (put_chunks chunks (put_line (text_of l) l.cr (put_trailers trailers tail)))
        ≡ returned (ok (payloads chunks, tail))
  unfolding read_chunked_body
  read_chunked_body-put chunks l trailers tail cs i hs =
      let last = put_line (text_of l) l.cr (put_trailers trailers tail) in
      chunk_loop-put chunks (suc (length (put_chunks chunks last))) [] l trailers tail cs i hs (
        omega (
          arith,
          length-put_trailers trailers tail,
          length-put_line (text_of l) l.cr (put_trailers trailers tail),
          length-put_chunks chunks last,
        ))
