-- ===== src/Codec/Fragments.antt =====
-- src/codec.rs: how the bytes arrive does not change what is decoded.
use kode_bridge.Base.{
  ℕ, zero, suc, ◌+◌, ◌≤◌, ◌≡◌, refl, sym, ap, ◌∙◌, List, [], ◌∷◌, ◌++◌, length, length-append,
  length-take, length-drop, take-append-drop, drop-append, take, drop, arith,
}
use kode_bridge.Bytes.{Bytes}
use kode_bridge.Codec.{Http, HttpIpcCodec, ParsedRequest, decoded, decode}
use kode_bridge.Codec.Decoding.{total_of, decode-IsDecoded}
use kode_bridge.Codec.HeaderEnd.{find_header_end-le, find_header_end-append}

module _ {ℓ} {A : Type ℓ} where
  take-append : (n : ℕ) (xs ys : List A) → n ≤ length xs → take n (xs ++ ys) ≡ take n xs
  take-append zero xs ys h = refl
  take-append (suc n) [] ys h = absurd (omega arith)
  take-append (suc n) (x ∷ xs) ys h = ap (◌∷◌ x) (take-append n xs ys (omega arith))

module _ (h : Http) (codec : HttpIpcCodec) where
  -- A request that the bytes so far decode to is the one that is decoded if more bytes stand behind
  -- them already, and those are left for the next request. So it does not matter how the bytes
  -- arrive.
  pub decode-append :
      (src more : Bytes) (r : ParsedRequest h) (rest : Bytes)
      → decode h codec src ≡ decoded r rest
      → decode h codec (src ++ more) ≡ decoded r (rest ++ more)
  decode-append src more r rest e =
      let d = (decode-IsDecoded h codec src r rest).0 e in
      let a = d.accepted_parts in
      let n = d.header_end + 4 in
      let total = total_of n d.req in
      (decode-IsDecoded h codec (src ++ more) r (rest ++ more)).1 (record {
        header_end = d.header_end;
        body_start = d.body_start;
        req = d.req;
        ended = find_header_end-append src more d.header_end d.ended;
        parsed =
            ap h.parse_request
              (take-append n src more (find_header_end-le src d.header_end d.ended))
            ∙ d.parsed;
        accepted_parts = record {
          fits = a.fits;
          arrived = omega (arith, a.arrived, length-append src more);
          within = a.within;
          method_read = a.method_read;
          path_read = a.path_read;
          headers_read = a.headers_read;
          body_taken =
              a.body_taken ∙ ap (drop d.body_start) (sym (take-append total src more a.arrived));
          rest_left =
              ap (λ xs. xs ++ more) a.rest_left ∙ sym (drop-append total src more a.arrived);
        };
      })

  -- What is decoded is all that leaves the buffer: the request and the rest are as long as the
  -- buffer, a request is never over its limit, and its body ends where the request ends.
  pub decode_lengths :
      (src : Bytes) (r : ParsedRequest h) (rest : Bytes)
      → decode h codec src ≡ decoded r rest
      → (total : ℕ) × (start : ℕ) × (total + length rest ≡ length src)
        × (start + length r.body ≡ total)
        × (total ≤ codec.max_request_size)
        × (src ≡ take total src ++ rest)
  decode_lengths src r rest e =
      let d = (decode-IsDecoded h codec src r rest).0 e in
      let a = d.accepted_parts in
      let total = total_of (d.header_end + 4) d.req in
      (
        total,
        d.body_start,
        omega (arith, ap length a.rest_left, length-drop total src, a.arrived),
        omega (
          arith,
          ap length a.body_taken,
          length-drop d.body_start (take total src),
          length-take total src,
          a.arrived,
          a.within,
        ),
        a.fits,
        sym (ap (◌++◌ (take total src)) a.rest_left ∙ take-append-drop total src),
      )
