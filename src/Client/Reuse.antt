-- ===== src/Client/Reuse.antt =====
-- src/ipc_http_client.rs, src/http_client.rs and src/pool.rs: which connections are used again.
use kode_bridge.Base.{
  ◌*◌, ◌⊎◌, ℕ, ◌≡◌, ◌≢◌, refl, sym, ap, ◌∙◌, inl, inr, true, false, none, some, List, [], ◌∷◌, ◌++◌,
  length, take, drop, take-append-drop, Bool-cases, Option-cases, ltb, leb, ◌==◌, ◌≤◌, arith,
}
use kode_bridge.Errors.{KodeBridgeError, Result, ok, err}
use kode_bridge.Bytes.{Bytes, bytes}
use kode_bridge.Pool.{
  Permits, Pool, PooledConnection, IdleConnection, borrow_stream, mark_reusable, return_connection,
}
use kode_bridge.HttpClient.Reader.{
  ChunkedRead, out_of_fuel, panicked, returned, Utf8, Read, read_chunked_body, read_exact,
  read_fixed_body,
}
use kode_bridge.HttpClient.Response.{
  Crates, Response, chunked, content_length, is_chunked, body_mode, read_body, parse_response,
  length_of_value,
}
use kode_bridge.HttpClient.Body.{IsResponse, parse_response-IsResponse, length-read_body}
use kode_bridge.Client.Exchange.{
  leaves_stream_clean, mark_if_clean, send_request, send_pooled_request,
}

module _ (c : Crates) where
  -- The headers say where the body ends: it is chunked, or they give a length.
  leaves_stream_clean-cases :
      (r : Response c)
      → leaves_stream_clean c r ≡ true
      → (is_chunked c r.headers ≡ true) ⊎ (content_length c r.headers ≢ ok none)
  unfolding leaves_stream_clean content_length
  leaves_stream_clean-cases r e = elim (Option-cases (c.get r.headers (bytes "content-length"))) [
    | inl n ↦ inl (ground (arith, n))
    | inr (value, is) ↦ inr (λ given. elim (Option-cases (length_of_value c (c.to_str value))) [
      | inl n ↦ absurd (ground (arith, is, n, given))
      | inr (m, n) ↦ absurd (ground (arith, is, n, given))
    ])
  ]

  module _ (u : Utf8) (reads : Bytes → List Read) where
    -- The body of a response was read up to its own end, and `left` is what follows it.
    pub record IsFramed (stream : Bytes) (r : Response c) : Type 0 where
      pub response : IsResponse c u reads stream r
      pub left : Bytes
      pub body_ends :
          (read_chunked_body u response.rest ≡ returned (ok (r.body, left)))
          ⊎ ((response.rest ≡ r.body ++ left)
              × (content_length c r.headers ≡ ok (some (length r.body))))

    chunked_ends :
        (stream body : Bytes)
        → read_body c u reads chunked stream ≡ some (ok body)
        → (left : Bytes) × (read_chunked_body u stream ≡ returned (ok (body, left)))
    unfolding read_body
    chunked_ends stream body e = on_read (read_chunked_body u stream) refl
      where
        on_read :
            (r : ChunkedRead)
            → read_chunked_body u stream ≡ r
            → (left : Bytes) × (read_chunked_body u stream ≡ returned (ok (body, left)))
        on_read out_of_fuel is = absurd (ground (arith, is))
        on_read panicked is = absurd (ground (arith, is))
        on_read (returned (err x)) is = absurd (ground (arith, is))
        on_read (returned (ok (found, left))) is = (left, ground (arith, is))

    fixed_ends :
        (n : ℕ) (stream body : Bytes)
        → read_body c u reads (body_mode c false (some n)) stream ≡ some (ok body)
        → (left : Bytes) × (stream ≡ body ++ left)
    unfolding read_body body_mode read_fixed_body read_exact
    fixed_ends n stream body e = elim (Bool-cases (n == 0)) [
      | inl zero ↦ (stream, ground (arith, zero))
      | inr some_bytes ↦ elim (Bool-cases (ltb (10 * 1024 * 1024) n)) [
        | inl large ↦ absurd (ground (arith, some_bytes, large))
        | inr fits ↦ elim (Bool-cases (leb n (length stream))) [
          | inr short ↦ absurd (ground (arith, some_bytes, fits, short))
          | inl enough ↦
              let same : take n stream ≡ body = ground (arith, some_bytes, fits, enough) in
              (drop n stream, sym (take-append-drop n stream) ∙ ap (λ b. b ++ drop n stream) same)
        ]
      ]
    ]

    -- Where the headers say where the body ends, it was read up to there.
    pub parse_response-IsFramed :
        (stream : Bytes) (r : Response c)
        → parse_response c u reads stream ≡ some (ok r)
        → leaves_stream_clean c r ≡ true
        → IsFramed stream r
    unfolding body_mode
    parse_response-IsFramed stream r e clean =
        let i = parse_response-IsResponse c u reads stream r e in
        elim (Bool-cases (is_chunked c r.headers)) [
          | inl is_yes ↦
              let (left, is) = chunked_ends i.rest r.body (
                ap (λ b. read_body c u reads (body_mode c b i.length_read) i.rest) (sym is_yes)
                ∙ i.body_read) in
              record { response = i; left = left; body_ends = inl is }
          | inr is_no ↦ elim (Option-cases i.length_read) [
            | inl n ↦ elim (leaves_stream_clean-cases r clean) [
              | inl is_yes ↦ absurd cc
              | inr given ↦ absurd (given (i.length_valid ∙ ap ok n))
            ]
            | inr (n, is) ↦
                let body_is =
                  ap (λ l. read_body c u reads (body_mode c false l) i.rest) (sym is)
                  ∙ ap (λ b. read_body c u reads (body_mode c b i.length_read) i.rest) (sym is_no)
                  ∙ i.body_read in
                let (left, split) = fixed_ends n i.rest r.body body_is in
                let (len, small) = length-read_body c u reads n i.rest r.body body_is in
                record {
                  response = i;
                  left = left;
                  body_ends = inr (split, i.length_valid ∙ ap ok (is ∙ ap some (sym len)));
                }
          ]
        ]

    -- The connection is the same; it may be used again exactly after a clean response.
    failed_exchange :
        (conn : PooledConnection) (now : ℕ) (e : KodeBridgeError)
        → (send_pooled_request c conn now (err e)).0.reusable ≡ false
    unfolding send_pooled_request borrow_stream
    failed_exchange conn now e = refl

    answered_exchange :
        (conn : PooledConnection) (now : ℕ) (r : Response c)
        → let after = (send_pooled_request c conn now (ok r)).0 in
          (after.inner ≡ conn.inner) × (after.reusable ≡ leaves_stream_clean c r)
    unfolding send_pooled_request mark_if_clean borrow_stream mark_reusable
    answered_exchange conn now r = elim (Bool-cases (leaves_stream_clean c r)) [
      | inl clean ↦ (ground (arith, clean), ground (arith, clean))
      | inr dirty ↦ (ground (arith, dirty), ground (arith, dirty))
    ]

    module _ (p : Permits) (pool : Pool p) (conn : PooledConnection) (now later : ℕ) where
      abbrev pub idle_after : Result (Response c) → List IdleConnection
      idle_after answer =
          (return_connection p pool (send_pooled_request c conn now answer).0 later).connections

      abbrev pub kept : List IdleConnection
      kept = pool.connections ++ record { stream = conn.inner; last_used = later } ∷ []

      not_reusable :
          (answer : Result (Response c))
          → (send_pooled_request c conn now answer).0.reusable ≡ false
          → idle_after answer ≡ pool.connections
      unfolding return_connection
      not_reusable answer e = ground (arith, e)

      no_room :
          (answer : Result (Response c))
          → ltb (length pool.connections) pool.config.max_size ≡ false
          → idle_after answer ≡ pool.connections
      unfolding return_connection
      no_room answer e = ground (arith, e)

      clean_and_room :
          (r : Response c)
          → leaves_stream_clean c r ≡ true
          → ltb (length pool.connections) pool.config.max_size ≡ true
          → idle_after (ok r) ≡ kept
      unfolding return_connection
      clean_and_room r clean room =
          let (same, reusable) = answered_exchange conn now r in
          ground (arith, room, same, reusable ∙ clean)

      -- Why a connection is not used again: the pool is full, the exchange failed, or the headers of
      -- the response do not say where its body ends.
      abbrev pub IsDropped : Result (Response c) → Type 0
      IsDropped answer =
          (pool.config.max_size ≤ length pool.connections)
          ⊎ ((e : KodeBridgeError) × (answer ≡ err e))
          ⊎ ((r : Response c) × (answer ≡ ok r) × (leaves_stream_clean c r ≡ false))

      -- After an exchange on a pooled connection that is given back, one of two holds. The idle
      -- connections of the pool are as before, and the pool is full, the exchange failed, or the
      -- headers of the response do not say where its body ends. Or there was a response whose headers
      -- say so, the body was read up to there, and the connection is idle.
      pub return_connection-IsFramed :
          (written : Result (Unit {0})) (stream : Bytes) (answer : Result (Response c))
          → send_request c u reads written stream ≡ some answer
          → ((idle_after answer ≡ pool.connections) × IsDropped answer)
            ⊎ ((r : Response c) × (answer ≡ ok r)
                × (leaves_stream_clean c r ≡ true)
                × IsFramed stream r
                × (idle_after answer ≡ kept))
      return_connection-IsFramed written stream (err x) e =
          inl (not_reusable (err x) (failed_exchange conn now x), inr (inl (x, refl)))
      return_connection-IsFramed (err x) stream (ok r) e = absurd (unfold send_request in cc)
      return_connection-IsFramed (ok done) stream (ok r) e =
          elim (Bool-cases (leaves_stream_clean c r)) [
            | inr dirty ↦ inl (
              not_reusable (ok r) ((answered_exchange conn now r).1 ∙ dirty),
              inr (inr (r, refl, dirty)),
            )
            | inl clean ↦ elim (Bool-cases (ltb (length pool.connections) pool.config.max_size)) [
              | inr full ↦ inl (no_room (ok r) full, inl (ground arith))
              | inl room ↦ inr (
                r,
                refl,
                clean,
                parse_response-IsFramed stream r (unfold send_request in e) clean,
                clean_and_room r clean room,
              )
            ]
          ]
