-- ===== src/HttpClient/Chunks.antt =====
-- src/http_client.rs, `read_chunked_body`: a body that was sent in chunks is read back.
use mathlib.Core.List.{append_assoc, append-nil}
use kode_bridge.Base.{
  leb, ℕ, ◌^◌, ◌<◌, ◌≤◌, ◌≡◌, ◌≢◌, refl, sym, ap, ◌∙◌, Bool, true, false, Option, none, some, List,
  [], ◌∷◌, ◌++◌, length, length-append, drop-length, take, All, All-append, arith,
}
use kode_bridge.Errors.{ok}
use kode_bridge.Bytes.{Bytes, from_str_radix}
use kode_bridge.HttpClient.Reader.{
  Utf8, split_line, read_line, read_exact, read_terminator, read_chunk, chunk_size, strip_suffix,
  before_semicolon, or_else,
}

abbrev pub IsText : Bytes → Type 0
IsText = All (λ c. (c ≢ 10) × (c ≢ 13))

abbrev pub cr_of : Bool → Bytes
cr_of true = 13 ∷ []
cr_of false = []

-- A line that ends in CRLF or in a bare LF.
abbrev pub put_line : Bytes → Bool → Bytes → Bytes
put_line text cr tail = text ++ (cr_of cr ++ (10 ∷ tail))

-- A size with its extension, which is empty or begins with a semicolon.
pub record SizeLine : Type 0 where
  pub size_text : Bytes
  pub extension : Option Bytes
  pub cr : Bool

abbrev pub extension_text : Option Bytes → Bytes
extension_text none = []
extension_text (some ext) = b';' ∷ ext

abbrev pub text_of : SizeLine → Bytes
text_of l = l.size_text ++ extension_text l.extension

pub record IsSizeLine (u : Utf8) (l : SizeLine) (n : ℕ) : Type 0 where
  pub size_is_text : IsText l.size_text
  pub no_semicolon : All (λ c. c ≢ b';') l.size_text
  pub extension_is_text : IsText (extension_text l.extension)
  pub readable : u.is_utf8 ((text_of l ++ cr_of l.cr) ++ (10 ∷ [])) ≡ true
  pub size_is : from_str_radix 16 (u.trim l.size_text) ≡ some n

pub record Chunk : Type 0 where
  pub size_line : SizeLine
  pub payload : Bytes
  pub payload_cr : Bool

-- A chunk that is not empty and not longer than a vector may be.
abbrev pub IsChunk : Utf8 → Chunk → Type 0
IsChunk u c =
    IsSizeLine u c.size_line (length c.payload)
    × (1 ≤ length c.payload)
    × (length c.payload < 2 ^ 63)

-- A trailer, with its line end left out.
abbrev pub IsTrailer : Utf8 → Bytes → Type 0
IsTrailer u t = IsText t × ((1 ≤ length t) × (u.is_utf8 ((t ++ cr_of true) ++ (10 ∷ [])) ≡ true))

abbrev pub put_chunks : List Chunk → Bytes → Bytes
put_chunks [] tail = tail
put_chunks (c ∷ cs) tail =
    put_line (text_of c.size_line) c.size_line.cr
      (c.payload ++ put_line [] c.payload_cr (put_chunks cs tail))

abbrev pub put_trailers : List Bytes → Bytes → Bytes
put_trailers [] tail = put_line [] true tail
put_trailers (t ∷ ts) tail = put_line t true (put_trailers ts tail)

abbrev pub payloads : List Chunk → Bytes
payloads [] = []
payloads (c ∷ cs) = c.payload ++ payloads cs

split_line-text :
    (text tail : Bytes)
    → All (λ c. c ≢ 10) text
    → split_line (text ++ (10 ∷ tail)) ≡ (text ++ (10 ∷ []), tail)
unfolding split_line
split_line-text [] tail h = refl
split_line-text (c ∷ cs) tail h = ground (arith, h.0, split_line-text cs tail h.1)

no_lf : (text : Bytes) → IsText text → All (λ c. c ≢ 10) text
no_lf [] h = tt
no_lf (c ∷ cs) h = (h.0.0, no_lf cs h.1)

no_lf-cr : (cr : Bool) → All (λ c. c ≢ 10) (cr_of cr)
no_lf-cr true = (omega arith, tt)
no_lf-cr false = tt

pub read_line-put_line :
    (u : Utf8) (text : Bytes) (cr : Bool) (tail : Bytes)
    → IsText text
    → u.is_utf8 ((text ++ cr_of cr) ++ (10 ∷ [])) ≡ true
    → read_line u (put_line text cr tail) ≡ ok ((text ++ cr_of cr) ++ (10 ∷ []), tail)
unfolding read_line
read_line-put_line u text cr tail h valid =
    let split =
      ap split_line (sym (append_assoc text (cr_of cr) (10 ∷ tail)))
      ∙ split_line-text (text ++ cr_of cr) tail
          (All-append _ text (cr_of cr) (no_lf text h) (no_lf-cr cr)) in
    rw (split, valid) refl

pub strip_suffix-append : (c : ℕ) (xs : Bytes) → strip_suffix c (xs ++ (c ∷ [])) ≡ some xs
unfolding strip_suffix
strip_suffix-append c [] = ground arith
strip_suffix-append c (x ∷ []) = ground arith
strip_suffix-append c (x ∷ y ∷ ys) = rw (strip_suffix-append c (y ∷ ys)) refl

strip_suffix-none : (xs : Bytes) → IsText xs → strip_suffix 13 xs ≡ none
unfolding strip_suffix
strip_suffix-none [] h = refl
strip_suffix-none (x ∷ []) h = ground (arith, h.0.1)
strip_suffix-none (x ∷ y ∷ ys) h = rw (strip_suffix-none (y ∷ ys) h.1) refl

without_cr :
    (text : Bytes) (cr : Bool)
    → IsText text
    → or_else (strip_suffix 13 (text ++ cr_of cr)) (text ++ cr_of cr) ≡ text
without_cr text true h = rw (strip_suffix-append 13 text) refl
without_cr text false h = rw (append-nil text, strip_suffix-none text h) refl

before_semicolon-text :
    (size : Bytes) (ext : Option Bytes)
    → All (λ c. c ≢ b';') size
    → before_semicolon (size ++ extension_text ext) ≡ size
unfolding before_semicolon
before_semicolon-text [] none h = refl
before_semicolon-text [] (some ext) h = refl
before_semicolon-text (c ∷ cs) ext h = ground (arith, h.0, before_semicolon-text cs ext h.1)

pub text_of-IsText : (u : Utf8) (l : SizeLine) (n : ℕ) → IsSizeLine u l n → IsText (text_of l)
text_of-IsText u l n i =
    All-append _ l.size_text (extension_text l.extension) i.size_is_text i.extension_is_text

pub chunk_size-line :
    (u : Utf8) (l : SizeLine) (n : ℕ)
    → IsSizeLine u l n
    → chunk_size u ((text_of l ++ cr_of l.cr) ++ (10 ∷ [])) ≡ ok n
unfolding chunk_size
chunk_size-line u l n i =
    rw
      (
        chunk_size,
        strip_suffix-append 10 (text_of l ++ cr_of l.cr),
        without_cr (text_of l) l.cr (text_of-IsText u l n i),
        before_semicolon-text l.size_text l.extension i.no_semicolon,
        i.size_is,
      )
      refl

pub take-length : (xs ys : Bytes) → take (length xs) (xs ++ ys) ≡ xs
take-length [] ys = refl
take-length (x ∷ xs) ys = ap (◌∷◌ x) (take-length xs ys)

read_exact-append : (xs ys : Bytes) → read_exact (length xs) (xs ++ ys) ≡ ok (xs, ys)
unfolding read_exact
read_exact-append xs ys =
    let enough : length xs ≤ length (xs ++ ys) = omega (arith, length-append xs ys) in
    rw (take-length xs ys, drop-length xs ys) (ground arith)

read_terminator-put : (cr : Bool) (tail : Bytes) → read_terminator (put_line [] cr tail) ≡ ok tail
unfolding read_terminator
read_terminator-put true tail = refl
read_terminator-put false tail = refl

pub read_chunk-put :
    (payload : Bytes) (cr : Bool) (tail : Bytes)
    → length payload < 2 ^ 63
    → read_chunk (length payload) (payload ++ put_line [] cr tail) ≡ some (ok (payload, tail))
unfolding read_chunk
read_chunk-put payload cr tail small =
    let fits : leb (2 ^ 63) (length payload) ≡ false = ground arith in
    rw
      (
        read_chunk,
        fits,
        read_exact-append payload (put_line [] cr tail),
        read_terminator-put cr tail,
      )
      refl
