-- ===== src/Codec/Framing.antt =====
-- src/codec.rs, `encode`: where the header block of a written message ends.
use mathlib.Core.List.{append_assoc}
use kode_bridge.Base.{
  ℕ, suc, ◌+◌, ◌≡◌, refl, sym, ap, ◌∙◌, ◌≢◌, false, some, List, [], ◌∷◌, ◌++◌, length,
  length-append, All, All-append, arith,
}
use kode_bridge.Bytes.{Bytes, bytes, crlf}
use kode_bridge.Codec.{RawHeader, is_header_end, find_header_end, encode_headers}

abbrev pub NoCr : Bytes → Type 0
NoCr = All (λ c. c ≢ 13)

-- A line of a header block: not empty, and with no carriage return.
abbrev pub IsLine : Bytes → Type 0
IsLine [] = ⊥
IsLine (c ∷ cs) = NoCr (c ∷ cs)

abbrev pub IsHeader : RawHeader → Type 0
IsHeader (key, value) = IsLine key × NoCr value

-- A message: its first line, its headers, a blank line and its body.
abbrev pub head : Bytes → List RawHeader → Bytes
head first headers = first ++ (crlf ++ (encode_headers headers ++ crlf))

find-skip :
    (c : ℕ) (cs : Bytes) (n : ℕ)
    → c ≢ 13
    → find_header_end cs ≡ some n
    → find_header_end (c ∷ cs) ≡ some (suc n)
unfolding find_header_end
find-skip c cs n ne f = ground (arith, not_end c cs ne)
  where
    not_end : (c : ℕ) (cs : Bytes) → c ≢ 13 → is_header_end (c ∷ cs) ≡ false
    not_end c (x ∷ y ∷ z ∷ rest) ne = unfold is_header_end in ground arith
    not_end c _ ne = unfold is_header_end in refl

find-skip_line :
    (line rest : Bytes) (n : ℕ)
    → NoCr line
    → find_header_end rest ≡ some n
    → find_header_end (line ++ rest) ≡ some (length line + n)
find-skip_line [] rest n l f = f ∙ ap some (omega arith)
find-skip_line (c ∷ cs) rest n l f =
    find-skip c (cs ++ rest) (length cs + n) l.0 (find-skip_line cs rest n l.1 f)
    ∙ ap some (omega arith)

find-blank : (body : Bytes) → find_header_end (13 ∷ 10 ∷ 13 ∷ 10 ∷ body) ≡ some 0
unfolding find_header_end is_header_end
find-blank body = refl

no_blank : (c : ℕ) (cs : Bytes) → c ≢ 13 → is_header_end (13 ∷ 10 ∷ c ∷ cs) ≡ false
unfolding is_header_end
no_blank c [] ne = refl
no_blank c (d ∷ ds) ne = ground arith

find-skip_crlf :
    (c : ℕ) (cs : Bytes) (n : ℕ)
    → c ≢ 13
    → find_header_end (c ∷ cs) ≡ some n
    → find_header_end (crlf ++ (c ∷ cs)) ≡ some (suc (suc n))
find-skip_crlf c cs n ne f =
    let after = find-skip 10 (c ∷ cs) n (omega arith) f in
    unfold find_header_end in ground (arith, no_blank c cs ne, after)

-- A line begins with a byte that is no carriage return.
line_starts :
    (line rest : Bytes) → IsLine line → (c : ℕ) × (cs : Bytes) × (line ++ rest ≡ c ∷ cs) × (c ≢ 13)
line_starts [] rest l = absurd l
line_starts (c ∷ cs) rest l = (c, cs ++ rest, refl, l.0)

IsLine-NoCr : (line : Bytes) → IsLine line → NoCr line
IsLine-NoCr [] l = absurd l
IsLine-NoCr (c ∷ cs) l = l

IsLine-append : (key rest : Bytes) → IsLine key → NoCr rest → IsLine (key ++ rest)
IsLine-append [] rest k r = absurd k
IsLine-append (c ∷ cs) rest k r = (k.0, All-append _ cs rest k.1 r)

header_line : RawHeader → Bytes
header_line (key, value) = key ++ (bytes ": " ++ value)

header_line-IsLine : (header : RawHeader) → IsHeader header → IsLine (header_line header)
unfolding header_line
header_line-IsLine (key, value) (k, v) =
    IsLine-append key (bytes ": " ++ value) k (omega arith, (omega arith, v))

head-cons :
    (first : Bytes) (header : RawHeader) (headers : List RawHeader) (body : Bytes)
    → head first (header ∷ headers) ++ body
      ≡ first ++ (crlf ++ (head (header_line header) headers ++ body))
unfolding encode_headers header_line
head-cons first (key, value) headers body = simp append_assoc

head-nil : (first body : Bytes) → head first [] ++ body ≡ first ++ (13 ∷ 10 ∷ 13 ∷ 10 ∷ body)
unfolding encode_headers
head-nil first body = append_assoc first _ body

head_starts :
    (header : RawHeader) (headers : List RawHeader) (body : Bytes)
    → IsLine (header_line header)
    → (c : ℕ) × (cs : Bytes) × (head (header_line header) headers ++ body ≡ c ∷ cs) × (c ≢ 13)
head_starts header headers body line =
    let block = crlf ++ (encode_headers headers ++ crlf) in
    let (c, cs, is, ne) = line_starts (header_line header) (block ++ body) line in
    (c, cs, append_assoc (header_line header) block body ∙ is, ne)

-- The first blank line of a message is the one that ends its header block.
pub find_header_end-head :
    (headers : List RawHeader) (first body : Bytes)
    → IsLine first
    → All IsHeader headers
    → (n : ℕ) × (find_header_end (head first headers ++ body) ≡ some n)
      × (n + 4 + length body ≡ length (head first headers ++ body))
find_header_end-head [] first body l hs = (
  length first + 0,
  ap find_header_end (head-nil first body)
      ∙ find-skip_line first _ 0 (IsLine-NoCr first l) (find-blank body),
  omega (arith, ap length (head-nil first body), length-append first (13 ∷ 10 ∷ 13 ∷ 10 ∷ body)),
)
find_header_end-head (header ∷ headers) first body l hs =
    let line = header_line-IsLine header hs.0 in
    let (n, f, len) = find_header_end-head headers (header_line header) body line hs.1 in
    let rest = head (header_line header) headers ++ body in
    (
      length first + suc (suc n),
      ap find_header_end (head-cons first header headers body)
          ∙ find-skip_line first (crlf ++ rest) (suc (suc n)) (IsLine-NoCr first l)
              (after rest n (head_starts header headers body line) f),
      omega (
        arith,
        len,
        ap length (head-cons first header headers body),
        length-append first (crlf ++ rest),
      ),
    )
  where
    after :
        (rest : Bytes) (n : ℕ)
        → (c : ℕ) × (cs : Bytes) × (rest ≡ c ∷ cs) × (c ≢ 13)
        → find_header_end rest ≡ some n
        → find_header_end (crlf ++ rest) ≡ some (suc (suc n))
    after rest n (c, cs, is, ne) f =
        ap (λ r. find_header_end (crlf ++ r)) is
        ∙ find-skip_crlf c cs n ne (ap find_header_end (sym is) ∙ f)
