-- ===== src/HttpClient/Sending.antt =====
-- src/http_client.rs, `RequestBuilder::build`: how a server finds the body of a request.
use mathlib.Core.List.{append_assoc}
use kode_bridge.Base.{
  ℕ, ◌+◌, ◌≡◌, ap, ◌∙◌, some, [], ◌∷◌, ◌++◌, length-append, drop-at, drop, All, All-append, arith,
}
use kode_bridge.Bytes.{Bytes, bytes}
use kode_bridge.Codec.{find_header_end}
use kode_bridge.Codec.Framing.{NoCr, IsLine, IsHeader, head, find_header_end-head}
use kode_bridge.HttpClient.Request.{HeaderMaps, RequestBuilder, body_of, build}

module _ (h : HeaderMaps) (b : RequestBuilder h) where
  abbrev pub request_line : Bytes
  request_line = b.method ++ (bytes " " ++ (b.uri ++ bytes " HTTP/1.1"))

  pub build-head : build h b ≡ head request_line (h.iter b.headers) ++ body_of h b
  unfolding build
  build-head = simp append_assoc

  pub request_line-IsLine : IsLine b.method → NoCr b.uri → IsLine request_line
  request_line-IsLine m u = go b.method m
    where
      go :
          (method : Bytes)
          → IsLine method
          → IsLine (method ++ (bytes " " ++ (b.uri ++ bytes " HTTP/1.1")))
      go [] m = absurd m
      go (c ∷ cs) m = (
        m.0,
        All-append _ cs _ m.1 (omega arith, All-append _ b.uri (bytes " HTTP/1.1") u (omega arith)),
      )

  -- A request whose method is not empty, and whose method, path, header names and header values have
  -- no carriage return, is built so that the first blank line ends its header block and exactly its
  -- body stands behind that line.
  pub build_framed :
      IsLine b.method
      → NoCr b.uri
      → All IsHeader (h.iter b.headers)
      → (n : ℕ) × (find_header_end (build h b) ≡ some n) × (drop (n + 4) (build h b) ≡ body_of h b)
  build_framed m u hs =
      let (n, f, len) =
        find_header_end-head (h.iter b.headers) request_line (body_of h b) (request_line-IsLine m u)
          hs in
      let block = head request_line (h.iter b.headers) in
      (
        n,
        ap find_header_end build-head ∙ f,
        ap (drop (n + 4)) build-head
            ∙ drop-at (n + 4) block (body_of h b)
                (omega (arith, len, length-append block (body_of h b))),
      )
