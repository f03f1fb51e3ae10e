-- ===== src/HttpClient/Tests.antt =====
-- Requests, responses and readers on concrete streams. All bytes are readable text, and nothing is
-- trimmed; the parser answers with one response whatever the bytes are.
use kode_bridge.Bytes.{crlf, to_lower}
use kode_bridge.HttpClient.Accessors.{Texts, reported_length}
use kode_bridge.HttpClient.Accessors.Length.{reported_length_is_kept}
use kode_bridge.Base.{
  ◌++◌, ltb, ◌&&◌, ◌*◌, ◌≤◌, leb, length, ◌⊎◌, ◌≡◌, ◌≢◌, refl, true, false, none, some, List, [],
  ◌∷◌, arith,
}
use kode_bridge.Errors.{ok}
use kode_bridge.Bytes.{
  eq_ignore_ascii_case, Bytes, decimal, to_decimal, bytes, from_str_radix, parse_digits, to_digit,
}
use kode_bridge.HttpClient.Request.{RequestBuilder, json, body_bytes, new_request}
use kode_bridge.HttpClient.Reader.{
  split_line, read_line, strip_suffix, before_semicolon, chunk_size, read_chunk, chunk_loop, Read,
  got, timed_out, panicked, returned, read_chunked_body,
}
use kode_bridge.HttpClient.Response.{is_chunked, read_head}
use kode_bridge.HttpClient.Termination.{EndsOn, read_chunked_body-ends, read_head-ends}
use kode_bridge.HttpClient.Chunks.{Chunk, SizeLine, put_line, put_chunks, put_trailers, text_of}
use kode_bridge.HttpClient.ChunkedBody.{read_chunked_body-put}
use kode_bridge.HttpClient.Sample.{
  lookup, maps, plain, crates, stream, no_reads, response, parsed_response,
}

abbrev put_request : RequestBuilder maps
put_request = record {
  method = bytes "PUT";
  uri = bytes "/x";
  headers = (bytes "content-length", bytes "4") ∷ (bytes "host", bytes "localhost") ∷ [];
  body = some (bytes "true");
}

-- The builder's own calls give that request, with the type of the body besides.
built_request :
    json maps (bytes "true") (new_request maps (bytes "PUT") (bytes "/x"))
    ≡ some (record put_request {
      headers =
          (bytes "content-length", bytes "4")
          ∷ (bytes "content-type", bytes "application/json")
          ∷ (bytes "user-agent", bytes "kode-bridge/0.1")
          ∷ (bytes "host", bytes "localhost")
          ∷ [];
    })
unfolding json body_bytes new_request to_decimal decimal
built_request = refl

read_chunked_body-ends_example : EndsOn plain (bytes "ff") (read_chunked_body plain (bytes "ff"))
read_chunked_body-ends_example = read_chunked_body-ends plain (bytes "ff")

-- A chunk that no vector can hold.
chunk_too_long : read_chunked_body plain (bytes "ffffffffffffffff" ++ crlf) ≡ panicked
unfolding read_chunked_body chunk_loop read_line split_line chunk_size strip_suffix before_semicolon
    from_str_radix parse_digits to_digit read_chunk
chunk_too_long = refl

read_head-ends_example : read_head plain (bytes "HTTP/1.1 200 OK") ≢ none
read_head-ends_example = read_head-ends plain (bytes "HTTP/1.1 200 OK")

-- `2;a` CRLF, `hi` LF.
abbrev hi_chunk : Chunk
hi_chunk = record {
  size_line = record { size_text = bytes "2"; extension = some (bytes "a"); cr = true };
  payload = bytes "hi";
  payload_cr = false;
}

abbrev last_line : SizeLine
last_line = record { size_text = bytes "0"; extension = none; cr = false }

read_chunked_body-put_example :
    read_chunked_body plain (
      put_chunks
        (hi_chunk ∷ [])
        (put_line (text_of last_line) false (put_trailers (bytes "x" ∷ []) (bytes "!"))))
    ≡ returned (ok (bytes "hi", bytes "!"))
unfolding from_str_radix parse_digits to_digit
read_chunked_body-put_example =
    read_chunked_body-put plain refl (hi_chunk ∷ []) last_line (bytes "x" ∷ []) (bytes "!")
      (
        (
          record {
            size_is_text = omega arith;
            no_semicolon = omega arith;
            extension_is_text = omega arith;
            readable = refl;
            size_is = refl;
          },
          omega arith,
          omega arith,
        ),
        tt,
      )
      (record {
        size_is_text = omega arith;
        no_semicolon = omega arith;
        extension_is_text = tt;
        readable = refl;
        size_is = refl;
      })
      ((omega arith, (omega arith, refl)), tt)

abbrev two_reads : List Read
two_reads =
    timed_out ∷ got (bytes "a") ∷ got (bytes "b") ∷ timed_out ∷ timed_out ∷ got (bytes "c") ∷ []

abbrev texts : Texts crates
texts = record {
  Value = Bytes;
  is_utf8 = λ b. true;
  from_utf8_lossy = λ b. b;
  from_json = some;
  json_error = λ b. "expected value";
  object = λ entries. [];
  iter = λ map. map;
  same_name = eq_ignore_ascii_case;
  is_success = λ status. leb 200 status && ltb status 300;
  is_client_error = λ status. leb 400 status && ltb status 500;
  is_server_error = λ status. leb 500 status && ltb status 600;
  is_redirection = λ status. leb 300 status && ltb status 400;
}

reported_length_is_kept_example :
    (reported_length crates texts response ≡ none)
    ⊎ ((reported_length crates texts response ≡ some (length response.body))
        × (length response.body ≤ 10 * 1024 * 1024))
reported_length_is_kept_example =
    reported_length_is_kept crates texts plain no_reads stream response parsed_response
      (unfold is_chunked lookup eq_ignore_ascii_case to_lower in refl)
