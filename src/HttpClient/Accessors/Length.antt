-- ===== src/HttpClient/Accessors/Length.antt =====
-- src/http_client.rs: the length that a response reports, and the one that its body has.
use kode_bridge.Base.{
  ℕ, ◌*◌, ◌≤◌, ◌≡◌, ◌⊎◌, sym, ap, inl, inr, ◌∙◌, false, List, length, Option, none, some,
  Bool-cases, Option-cases, arith,
}
use kode_bridge.Errors.{ok}
use kode_bridge.Bytes.{Bytes, bytes}
use kode_bridge.HttpClient.Reader.{Utf8, Read}
use kode_bridge.HttpClient.Response.{
  Crates, Response, is_chunked, content_length, length_of_value, all_digits, parse_response,
}
use kode_bridge.HttpClient.Body.{parse_response-IsResponse, length-parse_response}
use kode_bridge.HttpClient.Accessors.{Texts, parse_length, reported_length}

module _ (c : Crates) (t : Texts c) where
  parse_length-read :
      (text : Option Bytes) (n : ℕ)
      → length_of_value c text ≡ some n
      → parse_length c t text ≡ some n
  unfolding parse_length length_of_value
  parse_length-read none n e = cc
  parse_length-read (some digits) n e = elim (Bool-cases (all_digits digits)) [
    | inl y ↦ ground (arith, y)
    | inr z ↦ ground (arith, z)
  ]

  -- A length that the reader takes from the headers is the one that the response reports.
  reported-content_length :
      (r : Response c) (len : Option ℕ)
      → content_length c r.headers ≡ ok len
      → reported_length c t r ≡ len
  unfolding content_length reported_length
  reported-content_length r len e = elim (Option-cases (c.get r.headers (bytes "content-length"))) [
    | inl z ↦ ground (arith, z)
    | inr (value, v) ↦ elim (Option-cases (length_of_value c (c.to_str value))) [
      | inl bad ↦ ground (arith, v, bad)
      | inr (n, q) ↦ ground (arith, v, q, parse_length-read (c.to_str value) n q)
    ]
  ]

  -- A response that was read and reports a length, and whose body was not sent in chunks, has a body of
  -- that length, of at most 10 MiB.
  pub reported_length_is_kept :
      (u : Utf8) (reads : Bytes → List Read) (stream : Bytes) (r : Response c)
      → parse_response c u reads stream ≡ some (ok r)
      → is_chunked c r.headers ≡ false
      → (reported_length c t r ≡ none)
        ⊎ ((reported_length c t r ≡ some (length r.body)) × (length r.body ≤ 10 * 1024 * 1024))
  reported_length_is_kept u reads stream r e plain =
      let i = parse_response-IsResponse c u reads stream r e in
      let same = reported-content_length r i.length_read i.length_valid in
      elim (Option-cases i.length_read) [
        | inl z ↦ inl (same ∙ z)
        | inr (n, q) ↦
            let (len, small) =
              length-parse_response c u reads stream r n e plain (i.length_valid ∙ ap ok q) in
            inr (same ∙ q ∙ ap some (sym len), omega (arith, len, small))
      ]
