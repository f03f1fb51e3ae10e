-- ===== src/Codec/Overflow.antt =====
-- src/codec.rs, `decode`: the sum of the header length and the announced length is not checked.
use kode_bridge.Base.{ℕ, ◌+◌, ◌^◌, ◌≤◌, ◌<◌, ◌≡◌, ◌↔◌, some, length, take, arith}
use kode_bridge.Errors.{ok}
use kode_bridge.Bytes.{Bytes}
use kode_bridge.Codec.{
  Http, HttpIpcCodec, complete, RawRequest, panicked, find_header_end, content_length_of, method_of,
  path_of, split_request, decode_complete, decode_parsed, decode_headers, decode,
}
use kode_bridge.Codec.HeaderEnd.{find_header_end-le}
use kode_bridge.Codec.Decoding.{decode-headers}

module _ (h : Http) (codec : HttpIpcCodec) (src : Bytes) (header_end : ℕ) (req : RawRequest)
    (method : h.Method) (uri : h.Uri) where
  complete-panicked :
      (n : ℕ)
      → method_of h req.method ≡ ok method
      → path_of h req.path ≡ ok uri
      → n ≤ codec.max_request_size
      → n ≤ length src
      → n < 2 ^ 64
      → content_length_of 0 req.headers < 2 ^ 64
      → (decode_complete h codec src n n req ≡ panicked)
        ↔ (2 ^ 64 ≤ n + content_length_of 0 req.headers)
  unfolding decode_complete split_request
  complete-panicked n m u fits le small cl = (λ p. ground arith, λ over. ground arith)

  pub decode_panics_iff :
      find_header_end src ≡ some header_end
      → h.parse_request (take (header_end + 4) src) ≡ complete (header_end + 4) req
      → method_of h req.method ≡ ok method
      → path_of h req.path ≡ ok uri
      → header_end + 4 ≤ codec.max_request_size
      → codec.max_request_size < 2 ^ 64
      → content_length_of 0 req.headers < 2 ^ 64
      → (decode h codec src ≡ panicked)
        ↔ (2 ^ 64 ≤ header_end + 4 + content_length_of 0 req.headers)
  unfolding decode_headers decode_parsed
  decode_panics_iff f p m u fits small cl =
      rw (decode-headers h codec src, f)
        (rw p (
          complete-panicked (header_end + 4) m u fits (find_header_end-le src header_end f)
            (omega arith) cl))
