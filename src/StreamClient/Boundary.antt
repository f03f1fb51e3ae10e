-- ===== src/StreamClient/Boundary.antt =====
-- src/stream_client.rs: where the head of a streamed response ends.
use kode_bridge.Base.{
  ℕ, zero, suc, ◌+◌, ◌<◌, ◌≡◌, ◌≢◌, refl, subst, sym, ap, ◌∙◌, inl, inr, true, false, Option, none,
  some, [], ◌∷◌, ◌++◌, length, length-append, leb, ◌==◌, Bool-cases, Option-cases, arith,
}
use mathlib.Core.List.{append_assoc, append-nil}
use kode_bridge.Errors.{protocol, Result, ok, err}
use kode_bridge.Bytes.{Bytes}
use kode_bridge.Codec.{is_header_end, find_header_end}
use kode_bridge.Codec.HeaderEnd.{find_header_end-le, find_header_end-append, find-cons}
use kode_bridge.HttpClient.Reader.{split_line}
use kode_bridge.StreamClient.Head.{first_end, headers_end, head_loop, read_streaming_head}

abbrev shift : ℕ → Option ℕ → Option ℕ
shift i none = none
shift i (some n) = some (i + n + 4)

first_end-find : (i : ℕ) (src : Bytes) → first_end i src ≡ shift i (find_header_end src)
unfolding first_end find_header_end
first_end-find i [] = refl
first_end-find i (c ∷ cs) = elim (Bool-cases (is_header_end (c ∷ cs))) [
  | inl e ↦ ground (arith, e)
  | inr e ↦ elim (Option-cases (find_header_end cs)) [
    | inl n ↦ ground (arith, e, n, first_end-find (i + 1) cs)
    | inr (m, is) ↦ ground (arith, e, is, first_end-find (i + 1) cs)
  ]
]

abbrev behind : Option ℕ → Option ℕ
behind none = none
behind (some n) = some (n + 4)

shift_zero : (found : Option ℕ) → shift 0 found ≡ behind found
shift_zero none = refl
shift_zero (some n) = ap some (omega arith)

-- The client and the codec of the server agree on where the headers end.
headers_end-find : (src : Bytes) → headers_end src ≡ behind (find_header_end src)
unfolding headers_end
headers_end-find src = elim (Bool-cases (leb 4 (length src))) [
  | inl e ↦ rw (headers_end, e) (first_end-find 0 src ∙ shift_zero (find_header_end src))
  | inr e ↦ elim (Option-cases (find_header_end src)) [
    | inl n ↦ ground (arith, e, n)
    | inr (m, is) ↦ absurd (ground (arith, e, find_header_end-le src m is))
  ]
]

-- A line feed stands at the end only.
abbrev IsOneLine : Bytes → Type 0
IsOneLine [] = Unit
IsOneLine (c ∷ []) = Unit
IsOneLine (c ∷ d ∷ cs) = (c ≢ 10) × IsOneLine (d ∷ cs)

IsOneLine-cons : (c : ℕ) (line : Bytes) → c ≢ 10 → IsOneLine line → IsOneLine (c ∷ line)
IsOneLine-cons c [] ne one = tt
IsOneLine-cons c (d ∷ ds) ne one = (ne, one)

split_line-IsOneLine : (stream : Bytes) → IsOneLine (split_line stream).0
unfolding split_line
split_line-IsOneLine [] = tt
split_line-IsOneLine (c ∷ cs) = elim (Bool-cases (c == 10)) [
  | inl e ↦ rw (split_line, e) tt
  | inr e ↦
      rw (split_line, e)
        (IsOneLine-cons c (split_line cs).0 (λ same. absurd (ground (arith, e, same)))
          (split_line-IsOneLine cs))
]

split_line-append : (stream : Bytes) → (split_line stream).0 ++ (split_line stream).1 ≡ stream
unfolding split_line
split_line-append [] = refl
split_line-append (c ∷ cs) = ground (arith, split_line-append cs)

one_line_find : (line : Bytes) → IsOneLine line → find_header_end line ≡ none
unfolding find_header_end is_header_end
one_line_find [] one = refl
one_line_find (a ∷ []) one = refl
one_line_find (a ∷ b ∷ []) one = refl
one_line_find (a ∷ b ∷ c ∷ []) one = refl
one_line_find (a ∷ b ∷ c ∷ d ∷ rest) (ne, (ne', one)) =
    let later = one_line_find (b ∷ c ∷ d ∷ rest) (ne', one) in ground (arith, later, ne')

-- Where a blank line begins in the buffer that it is not all of, the line after it is its end.
here :
    (x : ℕ) (xs line : Bytes)
    → is_header_end (x ∷ xs) ≡ false
    → IsOneLine line
    → is_header_end (x ∷ xs ++ line) ≡ true
    → length (x ∷ xs ++ line) ≡ 4
unfolding is_header_end
here x (a ∷ b ∷ c ∷ rest) line before one e = absurd cc
here x [] [] before one e = absurd cc
here x [] (b ∷ []) before one e = absurd cc
here x [] (b ∷ c ∷ []) before one e = absurd cc
here x [] (b ∷ c ∷ d ∷ rest) before (ne, one) e = absurd (ground (arith, ne))
here x (a ∷ []) [] before one e = absurd cc
here x (a ∷ []) (c ∷ []) before one e = absurd cc
here x (a ∷ []) (c ∷ d ∷ []) before one e = refl
here x (a ∷ []) (c ∷ d ∷ f ∷ rest) before (nc, (nd, one)) e = absurd (ground (arith, nd))
here x (a ∷ b ∷ []) [] before one e = absurd cc
here x (a ∷ b ∷ []) (d ∷ []) before one e = refl
here x (a ∷ b ∷ []) (d ∷ f ∷ rest) before (ne, one) e = absurd (ground (arith, ne))

-- A blank line that a line completes ends with it.
completes :
    (buffer line : Bytes) (n : ℕ)
    → find_header_end buffer ≡ none
    → IsOneLine line
    → find_header_end (buffer ++ line) ≡ some n
    → n + 4 ≡ length (buffer ++ line)
unfolding find_header_end
completes [] line n before one now = absurd (ground (arith, one_line_find line one))
completes (x ∷ xs) line n before one now = elim (find-cons x (xs ++ line) n now) [
  | inl (e, z) ↦ omega (arith, here x xs line (ground arith) one e, z)
  | inr (e, (m, f, s)) ↦ elim (Option-cases (find_header_end xs)) [
    | inl none_in ↦ omega (arith, completes xs line m none_in one f, s)
    | inr (k, is) ↦ absurd (ground (arith, is))
  ]
]

-- What reading the head of a stream comes to.
pub data IsHead (stream : Bytes) : Option (Result ((Bytes × ℕ) × Bytes)) → Type 0 where
  no_blank_line :
      find_header_end stream ≡ none
      → IsHead stream (some (err (protocol "Unexpected end of stream")))
  up_to_blank_line :
      (n : ℕ) (head rest : Bytes)
      → find_header_end stream ≡ some n
      → head ++ rest ≡ stream
      → length head ≡ n + 4
      → IsHead stream (some (ok ((head, n + 4), rest)))

length-split_line_cons : (c : ℕ) (cs : Bytes) → (length (split_line (c ∷ cs)).0 == 0) ≡ false
unfolding split_line
length-split_line_cons c cs = ground arith

length-split_line :
    (stream : Bytes) → length (split_line stream).0 + length (split_line stream).1 ≡ length stream
length-split_line stream =
    sym (length-append (split_line stream).0 (split_line stream).1)
    ∙ ap length (split_line-append stream)

head_loop-IsHead :
    (fuel : ℕ) (buffer stream : Bytes)
    → length stream < fuel
    → find_header_end buffer ≡ none
    → IsHead (buffer ++ stream) (head_loop fuel buffer stream)
unfolding head_loop
head_loop-IsHead zero buffer stream small before = absurd (omega arith)
head_loop-IsHead (suc fuel) buffer [] small before =
    unfold split_line in no_blank_line (ap find_header_end (append-nil buffer) ∙ before)
head_loop-IsHead (suc fuel) buffer (c ∷ cs) small before =
    let line = (split_line (c ∷ cs)).0 in
    let rest = (split_line (c ∷ cs)).1 in
    let some_line = length-split_line_cons c cs in
    let joined : (buffer ++ line) ++ rest ≡ buffer ++ c ∷ cs =
      append_assoc buffer line rest ∙ ap (λ l. buffer ++ l) (split_line-append (c ∷ cs)) in
    elim (Option-cases (find_header_end (buffer ++ line))) [
      | inl n ↦
          rw (head_loop, some_line, headers_end-find (buffer ++ line), n)
            (subst (λ l. IsHead l (head_loop fuel (buffer ++ line) rest)) joined
              (head_loop-IsHead fuel (buffer ++ line) rest
                (ground (arith, length-split_line (c ∷ cs), some_line)) n))
      | inr (n, is) ↦
          rw (head_loop, some_line, headers_end-find (buffer ++ line), is)
            (up_to_blank_line n (buffer ++ line) rest
              (ap find_header_end (sym joined) ∙ find_header_end-append (buffer ++ line) rest n is)
              joined (sym (completes buffer line n before (split_line-IsOneLine (c ∷ cs)) is)))
    ]

-- The head of a streamed response ends exactly where the server's codec finds the end of headers:
-- what is read for it is the stream up to and with its first blank line, and not a byte of the body;
-- a stream without a blank line is an error.
pub read_streaming_head-IsHead : (stream : Bytes) → IsHead stream (read_streaming_head stream)
unfolding read_streaming_head
read_streaming_head-IsHead stream =
    head_loop-IsHead (suc (length stream)) [] stream (omega arith) (unfold find_header_end in refl)
