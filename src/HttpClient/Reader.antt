-- ===== src/HttpClient/Reader.antt =====
-- src/http_client.rs: `read_chunked_body`, `read_fixed_body` and `read_until_end_adaptive`.
-- A stream is the bytes that still arrive before its end. Every reader returns what it read and what
-- is left. UTF-8 is a parameter.
use kode_bridge.Base.{
  ℕ, zero, suc, ◌+◌, ◌*◌, ◌^◌, Bool, false, ◌&&◌, Option, none, some, List, [], ◌∷◌, ◌++◌, length,
  take, drop, ltb, leb, ◌==◌, if◌then◌else◌,
}
use kode_bridge.Errors.{KodeBridgeError, io, protocol, stream_closed, Result, ok, err}
use kode_bridge.Bytes.{Bytes, from_str_radix}

-- `String` over bytes: which bytes are valid, and `str::trim`, which takes off Unicode white space.
pub record Utf8 : Type 0 where
  pub is_utf8 : Bytes → Bool
  pub trim : Bytes → Bytes

-- The bytes up to the first line feed and with it, or all.
unfoldable pub split_line : Bytes → Bytes × Bytes
split_line [] = ([], [])
split_line (c ∷ cs) =
    let (line, rest) = split_line cs in if c == 10 then (c ∷ [], cs) else (c ∷ line, rest)

unfoldable pub read_line : Utf8 → Bytes → Result (Bytes × Bytes)
read_line u stream =
    let (line, rest) = split_line stream in
    if u.is_utf8 line then ok (line, rest) else err (io "stream did not contain valid UTF-8")

unfoldable pub read_exact : ℕ → Bytes → Result (Bytes × Bytes)
read_exact n stream =
    if leb n (length stream) then ok (take n stream, drop n stream) else err (io "early eof")

-- `strip_suffix` for one byte.
unfoldable pub strip_suffix : ℕ → Bytes → Option Bytes
strip_suffix c [] = none
strip_suffix c (x ∷ []) = if x == c then some [] else none
strip_suffix c (x ∷ y ∷ ys) = elim (strip_suffix c (y ∷ ys)) [
  | none ↦ none
  | some rest ↦ some (x ∷ rest)
]

-- What stands before the first `;`, or all.
unfoldable pub before_semicolon : Bytes → Bytes
before_semicolon [] = []
before_semicolon (c ∷ cs) = let rest = before_semicolon cs in if c == b';' then [] else c ∷ rest

abbrev pub or_else {ℓ} : {A : Type ℓ} → Option A → A → A
or_else none a = a
or_else (some b) a = b

unfoldable pub chunk_size : Utf8 → Bytes → Result ℕ
chunk_size u size_line = elim (strip_suffix 10 size_line) [
  | none ↦ err (protocol "Incomplete chunk size line")
  | some line ↦
      elim (from_str_radix 16 (u.trim (before_semicolon (or_else (strip_suffix 13 line) line)))) [
        | none ↦ err (protocol "Invalid chunk size")
        | some size ↦ ok size
      ]
]

unfoldable pub is_blank : Bytes → Bool
is_blank (c ∷ []) = c == 10
is_blank (c ∷ d ∷ []) = c == 13 && d == 10
is_blank _ = false

-- None where the fuel runs out.
abbrev pub Answer : Type 0 → Type 0
Answer A = Option (Result (A × Bytes))

-- The trailers, through the final empty line.
unfoldable pub read_trailers : ℕ → Utf8 → Bytes → Answer Unit
read_trailers zero u stream = none
read_trailers (suc fuel) u stream = elim (read_line u stream) [
  | err e ↦ some (err e)
  | ok (line, rest) ↦
      let later = read_trailers fuel u rest in
      if length line == 0
      then some (err stream_closed)
      else if is_blank line
      then some (ok (tt, rest))
      else elim (strip_suffix 10 line) [
        | none ↦ some (err (protocol "Incomplete chunk trailer"))
        | some trailer ↦ later
      ]
]

-- A CRLF, or a bare LF.
unfoldable pub read_terminator : Bytes → Result Bytes
read_terminator [] = err (io "early eof")
read_terminator (c ∷ rest) =
    if c == 13
    then elim rest [
      | [] ↦ err (io "early eof")
      | d ∷ after ↦ if d == 10 then ok after else err (protocol "Invalid chunk terminator")
    ]
    else if c == 10
    then ok rest
    else err (protocol "Invalid chunk terminator")

-- The data of a chunk and its terminator. A vector that is longer than `isize::MAX` cannot be
-- allocated: the code panics, and there is none.
unfoldable pub read_chunk : ℕ → Bytes → Option (Result (Bytes × Bytes))
read_chunk size stream = if leb (2 ^ 63) size then none else elim (read_exact size stream) [
  | err e ↦ some (err e)
  | ok (chunk, rest) ↦ elim (read_terminator rest) [
    | err e ↦ some (err e)
    | ok after ↦ some (ok (chunk, after))
  ]
]

-- What the reader of a chunked body comes to: its fuel runs out, it panics, or it returns.
pub data ChunkedRead : Type 0 where
  out_of_fuel panicked : ChunkedRead
  returned : Result (Bytes × Bytes) → ChunkedRead

unfoldable pub finish_body : Bytes → Answer Unit → ChunkedRead
finish_body body none = out_of_fuel
finish_body body (some (err e)) = returned (err e)
finish_body body (some (ok (done, rest))) = returned (ok (body, rest))

unfoldable pub chunk_loop : ℕ → Utf8 → Bytes → Bytes → ChunkedRead
chunk_loop zero u body stream = out_of_fuel
chunk_loop (suc fuel) u body stream = elim (read_line u stream) [
  | err e ↦ returned (err e)
  | ok (size_line, rest) ↦
      if length size_line == 0
      then returned (err stream_closed)
      else elim (chunk_size u size_line) [
        | err e ↦ returned (err e)
        | ok size ↦
            if size == 0
            then finish_body body (read_trailers (suc fuel) u rest)
            else elim (read_chunk size rest) [
              | none ↦ panicked
              | some (err e) ↦ returned (err e)
              | some (ok (chunk, after)) ↦ chunk_loop fuel u (body ++ chunk) after
            ]
      ]
]

-- Every turn takes a byte off the stream.
unfoldable pub read_chunked_body : Utf8 → Bytes → ChunkedRead
read_chunked_body u stream = chunk_loop (suc (length stream)) u [] stream

unfoldable pub read_fixed_body : ℕ → Bytes → Result (Bytes × Bytes)
read_fixed_body len stream = read_exact len stream

-- What a read of at most 512 bytes gives under its timeout (25 ms, and 25 ms more after each that
-- passed): some bytes, the end, or an error.
pub data Read : Type 0 where
  got : Bytes → Read
  eof timed_out : Read
  read_error : KodeBridgeError → Read

-- `read_until_end_adaptive` for the reads that it makes. None where they are not enough to end it.
unfoldable pub adaptive_loop : ℕ → Bytes → List Read → Option (Result Bytes)
adaptive_loop empty_reads body [] = none
adaptive_loop empty_reads body (eof ∷ reads) = some (ok body)
adaptive_loop empty_reads body (read_error e ∷ reads) = some (err e)
adaptive_loop empty_reads body (timed_out ∷ reads) =
    let later = adaptive_loop (empty_reads + 1) body reads in
    if leb 2 (empty_reads + 1) then some (ok body) else later
adaptive_loop empty_reads body (got data_read ∷ reads) =
    let later = adaptive_loop 0 (body ++ data_read) reads in
    if ltb (20 * 1024 * 1024) (length (body ++ data_read))
    then some (err (protocol "Response body too large"))
    else later

unfoldable pub read_until_end_adaptive : List Read → Option (Result Bytes)
read_until_end_adaptive reads = adaptive_loop 0 [] reads
