-- ===== src/HttpClient/Termination.antt =====
-- src/http_client.rs: the readers of a response come to an end on every stream.
use mathlib.Core.List.{append_assoc}
use kode_bridge.Base.{
  drop, take, take-append-drop, length-append, Option-cases, false, ◌⊎◌, ◌^◌, sym, subst, ◌∙◌, leb,
  ℕ, zero, suc, ◌+◌, ◌≤◌, ◌<◌, ◌≡◌, ◌≢◌, refl, ap, inl, inr, none, some, [], ◌∷◌, ◌++◌, length,
  Bool-cases, ◌==◌, arith,
}
use kode_bridge.Errors.{Result, stream_closed, ok, err, Result-cases}
use kode_bridge.Bytes.{Bytes}
use kode_bridge.HttpClient.Reader.{
  ChunkedRead, returned, panicked, Utf8, split_line, read_line, read_exact, read_terminator,
  read_chunk, chunk_size, read_trailers, finish_body, chunk_loop, read_chunked_body, Answer,
}
use kode_bridge.HttpClient.Response.{read_header_lines, read_head}

length-split_line :
    (stream : Bytes) → length (split_line stream).0 + length (split_line stream).1 ≡ length stream
unfolding split_line
length-split_line [] = refl
length-split_line (c ∷ cs) = ground (arith, length-split_line cs)

length-read_line :
    (u : Utf8) (stream line rest : Bytes)
    → read_line u stream ≡ ok (line, rest)
    → length line + length rest ≡ length stream
unfolding read_line
length-read_line u stream line rest e = ground (arith, length-split_line stream)

split_line-append : (stream : Bytes) → (split_line stream).0 ++ (split_line stream).1 ≡ stream
unfolding split_line
split_line-append [] = refl
split_line-append (c ∷ cs) = ground (arith, split_line-append cs)

read_line-append :
    (u : Utf8) (stream line rest : Bytes)
    → read_line u stream ≡ ok (line, rest)
    → line ++ rest ≡ stream
unfolding read_line
read_line-append u stream line rest e = ground (arith, split_line-append stream)

-- The terminator is one or two bytes at the front.
read_terminator-append :
    (stream after : Bytes)
    → read_terminator stream ≡ ok after
    → (end : Bytes) × (end ++ after ≡ stream)
unfolding read_terminator
read_terminator-append [] after e = absurd cc
read_terminator-append (c ∷ []) after e = (c ∷ [], ground arith)
read_terminator-append (c ∷ d ∷ rest) after e = elim (Bool-cases (c == 13)) [
  | inl cr ↦ (c ∷ d ∷ [], ground (arith, cr))
  | inr no_cr ↦ (c ∷ [], ground (arith, no_cr))
]

read_chunk-append :
    (size : ℕ) (stream chunk after : Bytes)
    → read_chunk size stream ≡ some (ok (chunk, after))
    → (taken : Bytes) × (taken ++ after ≡ stream)
unfolding read_chunk read_exact
read_chunk-append size stream chunk after e = elim (Bool-cases (leb (2 ^ 63) size)) [
  | inl large ↦ absurd (ground (arith, large))
  | inr fits ↦ elim (Bool-cases (leb size (length stream))) [
    | inr short ↦ absurd (ground (arith, fits, short))
    | inl enough ↦ elim (Result-cases (read_terminator (drop size stream))) [
      | inr (x, is) ↦ absurd (ground (arith, fits, enough, is))
      | inl (rest, is) ↦
          let same : rest ≡ after = ground (arith, fits, enough, is) in
          let (end, split) = read_terminator-append (drop size stream) rest is in
          (
            take size stream ++ end,
            append_assoc (take size stream) end after
                ∙ ap (λ l. take size stream ++ (end ++ l)) (sym same)
                ∙ ap (λ l. take size stream ++ l) split
                ∙ take-append-drop size stream,
          )
    ]
  ]
]

read_trailers-ends :
    (fuel : ℕ) (u : Utf8) (stream : Bytes)
    → length stream < fuel
    → read_trailers fuel u stream ≢ none
unfolding read_trailers
read_trailers-ends zero u stream h n = absurd (omega arith)
read_trailers-ends (suc fuel) u stream h n = elim (Result-cases (read_line u stream)) [
  | inr (e, is) ↦ ground (arith, is)
  | inl ((line, rest), is) ↦
      let len = length-read_line u stream line rest is in
      elim (Bool-cases (length line == 0)) [
        | inl empty ↦ ground (arith, is, empty)
        | inr some_bytes ↦
            let less : length rest < fuel = ground arith in
            ground (arith, is, some_bytes, read_trailers-ends fuel u rest less)
      ]
]

-- The stream has a line that announces a chunk which is longer than a vector may be.
pub record AnnouncesTooMuch (u : Utf8) (stream : Bytes) : Type 0 where
  pub before : Bytes
  pub line : Bytes
  pub after : Bytes
  pub size : ℕ
  pub split : stream ≡ before ++ (line ++ after)
  pub announced : chunk_size u line ≡ ok size
  pub too_large : 2 ^ 63 ≤ size

-- The reader returns, or panics at such a line.
abbrev pub EndsOn : Utf8 → Bytes → ChunkedRead → Type 0
EndsOn u stream r =
    ((answer : Result (Bytes × Bytes)) × (r ≡ returned answer))
    ⊎ ((r ≡ panicked) × AnnouncesTooMuch u stream)

EndsOn-later :
    (u : Utf8) (taken stream : Bytes) (r : ChunkedRead)
    → EndsOn u stream r
    → EndsOn u (taken ++ stream) r
EndsOn-later u taken stream r (inl answered) = inl answered
EndsOn-later u taken stream r (inr (panics, a)) = inr (
  panics,
  record {
    before = taken ++ a.before;
    line = a.line;
    after = a.after;
    size = a.size;
    split = ap (λ l. taken ++ l) a.split ∙ sym (append_assoc taken a.before (a.line ++ a.after));
    announced = a.announced;
    too_large = a.too_large;
  },
)

finish_body-ends :
    (body : Bytes) (a : Answer Unit)
    → a ≢ none
    → (answer : Result (Bytes × Bytes)) × (finish_body body a ≡ returned answer)
unfolding finish_body
finish_body-ends body none some_answer = absurd (some_answer refl)
finish_body-ends body (some (err x)) some_answer = (err x, refl)
finish_body-ends body (some (ok (done, rest))) some_answer = (ok (body, rest), refl)

read_chunk-none : (size : ℕ) (stream : Bytes) → read_chunk size stream ≡ none → 2 ^ 63 ≤ size
unfolding read_chunk
read_chunk-none size stream e = elim (Bool-cases (leb (2 ^ 63) size)) [
  | inl large ↦ ground arith
  | inr fits ↦ elim (Result-cases (read_exact size stream)) [
    | inr (x, is) ↦ absurd (ground (arith, fits, is))
    | inl ((chunk, rest), is) ↦ elim (Result-cases (read_terminator rest)) [
      | inr (x, end) ↦ absurd (ground (arith, fits, is, end))
      | inl (after, end) ↦ absurd (ground (arith, fits, is, end))
    ]
  ]
]

chunk_loop-ends :
    (fuel : ℕ) (u : Utf8) (body stream : Bytes)
    → length stream < fuel
    → EndsOn u stream (chunk_loop fuel u body stream)
unfolding chunk_loop
chunk_loop-ends zero u body stream h = absurd (omega arith)
chunk_loop-ends (suc fuel) u body stream h = elim (Result-cases (read_line u stream)) [
  | inr (e, is) ↦ inl (err e, ground (arith, is))
  | inl ((line, rest), is) ↦
      let len = length-read_line u stream line rest is in
      let line_split = read_line-append u stream line rest is in
      elim (Bool-cases (length line == 0)) [
        | inl empty ↦ inl (err stream_closed, ground (arith, is, empty))
        | inr some_bytes ↦ elim (Result-cases (chunk_size u line)) [
          | inr (e, size_is) ↦ inl (err e, ground (arith, is, some_bytes, size_is))
          | inl (size, size_is) ↦ elim (Bool-cases (size == 0)) [
            | inl last ↦
                let (answer, ends) =
                  finish_body-ends body (read_trailers (suc fuel) u rest)
                    (read_trailers-ends (suc fuel) u rest (omega arith)) in
                inl (answer, ground (arith, is, some_bytes, size_is, last, ends))
            | inr more ↦ elim (Option-cases (read_chunk size rest)) [
              | inl none_read ↦ inr (
                ground (arith, is, some_bytes, size_is, more, none_read),
                record {
                  before = [];
                  line = line;
                  after = rest;
                  size = size;
                  split = sym line_split;
                  announced = size_is;
                  too_large = read_chunk-none size rest none_read;
                },
              )
              | inr (got, got_is) ↦ elim (Result-cases got) [
                | inr (e, bad) ↦
                    inl (err e, ground (arith, is, some_bytes, size_is, more, got_is, bad))
                | inl ((chunk, after), good) ↦
                    let (taken, split) =
                      read_chunk-append size rest chunk after (got_is ∙ ap some good) in
                    let left = ap length split in
                    let later =
                      chunk_loop-ends fuel u (body ++ chunk) after
                        (ground (arith, left, length-append taken after)) in
                    let whole =
                      append_assoc line taken after ∙ ap (λ l. line ++ l) split ∙ line_split in
                    subst (EndsOn u stream)
                      (sym (next_turn is some_bytes size_is more (got_is ∙ ap some good)))
                      (subst (λ l. EndsOn u l (chunk_loop fuel u (body ++ chunk) after)) whole
                        (EndsOn-later u (line ++ taken) after _ later))
              ]
            ]
          ]
        ]
      ]
]
  where
    next_turn :
        {line rest chunk after : Bytes} {size : ℕ}
        → read_line u stream ≡ ok (line, rest)
        → (length line == 0) ≡ false
        → chunk_size u line ≡ ok size
        → (size == 0) ≡ false
        → read_chunk size rest ≡ some (ok (chunk, after))
        → chunk_loop (suc fuel) u body stream ≡ chunk_loop fuel u (body ++ chunk) after
    next_turn is some_bytes size_is more got_is =
        ground (arith, is, some_bytes, size_is, more, got_is)

-- On every stream, whatever bytes it has, the reader of a chunked body returns a body or an error, or
-- it panics; it panics only if the stream has a size line that announces a chunk of 2^63 bytes or
-- more.
pub read_chunked_body-ends :
    (u : Utf8) (stream : Bytes) → EndsOn u stream (read_chunked_body u stream)
unfolding read_chunked_body
read_chunked_body-ends u stream = chunk_loop-ends (suc (length stream)) u [] stream (omega arith)

read_header_lines-ends :
    (fuel : ℕ) (u : Utf8) (buffer stream : Bytes)
    → length stream < fuel
    → read_header_lines fuel u buffer stream ≢ none
unfolding read_header_lines
read_header_lines-ends zero u buffer stream h n = absurd (omega arith)
read_header_lines-ends (suc fuel) u buffer stream h n = elim (Result-cases (read_line u stream)) [
  | inr (e, is) ↦ ground (arith, is)
  | inl ((line, rest), is) ↦
      let len = length-read_line u stream line rest is in
      elim (Bool-cases (length line == 0)) [
        | inl empty ↦ ground (arith, is, empty)
        | inr some_bytes ↦
            let less : length rest < fuel = ground arith in
            ground (arith, is, some_bytes, read_header_lines-ends fuel u (buffer ++ line) rest less)
      ]
]

pub read_head-ends : (u : Utf8) (stream : Bytes) → read_head u stream ≢ none
unfolding read_head
read_head-ends u stream n = elim (Result-cases (read_line u stream)) [
  | inr (e, is) ↦ ground (arith, is)
  | inl ((line, rest), is) ↦
      ground (arith, is, read_header_lines-ends (suc (length rest)) u line rest (omega arith))
]
