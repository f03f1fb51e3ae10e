-- ===== src/Codec/Lengths.antt =====
-- src/codec.rs, `decode`: the length of the body that the headers announce.
use kode_bridge.Base.{
  ℕ, ◌≡◌, refl, sym, ap, subst, ◌∙◌, ◌↔◌, ◌⊎◌, inl, inr, some, List, [], ◌∷◌, ◌++◌, true, All,
  Bool-cases, Option-cases, arith,
}
use kode_bridge.Bytes.{bytes, eq_ignore_ascii_case, parse_usize}
use kode_bridge.Codec.{RawHeader, content_length_of}

-- A header that announces a length: it is called Content-Length and its value is a number.
abbrev pub Announces : RawHeader → ℕ → Type 0
Announces (name, value) n =
    (eq_ignore_ascii_case name (bytes "Content-Length") ≡ true) × (parse_usize value ≡ some n)

abbrev pub IsSilent : RawHeader → Type 0
IsSilent header = (n : ℕ) → ¬ Announces header n

-- The length of the body: that of the last header that announces one, or zero.
abbrev pub IsBodyLength : List RawHeader → ℕ → Type 0
IsBodyLength headers n =
    (All IsSilent headers × (n ≡ 0))
    ⊎ ((before : List RawHeader) × (header : RawHeader) × (after : List RawHeader) × (headers
          ≡ before ++ (header ∷ after))
        × Announces header n
        × All IsSilent after)

header-cases : (header : RawHeader) → ((n : ℕ) × Announces header n) ⊎ IsSilent header
header-cases (name, value) =
    elim (Bool-cases (eq_ignore_ascii_case name (bytes "Content-Length"))) [
      | inr other ↦ inr (λ n a. absurd (ground (arith, other, a.0)))
      | inl named ↦ elim (Option-cases (parse_usize value)) [
        | inl unreadable ↦ inr (λ n a. absurd (ground (arith, unreadable, a.1)))
        | inr (n, is) ↦ inl (n, (named, is))
      ]
    ]

content_length_of-announced :
    (found : ℕ) (header : RawHeader) (rest : List RawHeader) (n : ℕ)
    → Announces header n
    → content_length_of found (header ∷ rest) ≡ content_length_of n rest
unfolding content_length_of
content_length_of-announced found (name, value) rest n a = rw (content_length_of, a.0, a.1) refl

content_length_of-silent :
    (found : ℕ) (header : RawHeader) (rest : List RawHeader)
    → IsSilent header
    → content_length_of found (header ∷ rest) ≡ content_length_of found rest
unfolding content_length_of
content_length_of-silent found (name, value) rest silent =
    elim (Bool-cases (eq_ignore_ascii_case name (bytes "Content-Length"))) [
      | inr other ↦ rw (content_length_of, other) refl
      | inl named ↦ elim (Option-cases (parse_usize value)) [
        | inl unreadable ↦ rw (content_length_of, named, unreadable) refl
        | inr (n, is) ↦ absurd (silent n (named, is))
      ]
    ]

-- What is found is the last length that is announced, or what was found before.
content_length_of-last_announced :
    (headers : List RawHeader) (found : ℕ)
    → (All IsSilent headers × (content_length_of found headers ≡ found))
      ⊎ ((before : List RawHeader) × (header : RawHeader) × (after : List RawHeader) × (headers
            ≡ before ++ (header ∷ after))
          × Announces header (content_length_of found headers)
          × All IsSilent after)
unfolding content_length_of
content_length_of-last_announced [] found = inl (tt, refl)
content_length_of-last_announced (header ∷ rest) found = elim (header-cases header) [
  | inr silent ↦
      let same = content_length_of-silent found header rest silent in
      elim (content_length_of-last_announced rest found) [
        | inl (all_silent, is) ↦ inl ((silent, all_silent), same ∙ is)
        | inr (before, last, after, split, a, later) ↦ inr (
          header ∷ before,
          last,
          after,
          ap (◌∷◌ header) split,
          subst (Announces last) (sym same) a,
          later,
        )
      ]
  | inl (n, announced) ↦
      let same = content_length_of-announced found header rest n announced in
      elim (content_length_of-last_announced rest n) [
        | inl (all_silent, is) ↦ inr (
          [],
          header,
          rest,
          refl,
          subst (Announces header) (sym (same ∙ is)) announced,
          all_silent,
        )
        | inr (before, last, after, split, a, later) ↦ inr (
          header ∷ before,
          last,
          after,
          ap (◌∷◌ header) split,
          subst (Announces last) (sym same) a,
          later,
        )
      ]
]

content_length_of-after :
    (after : List RawHeader) (found : ℕ)
    → All IsSilent after
    → content_length_of found after ≡ found
unfolding content_length_of
content_length_of-after [] found hs = refl
content_length_of-after (header ∷ after) found hs =
    content_length_of-silent found header after hs.0 ∙ content_length_of-after after found hs.1

content_length_of-before :
    (before after : List RawHeader) (header : RawHeader) (found n : ℕ)
    → Announces header n
    → All IsSilent after
    → content_length_of found (before ++ (header ∷ after)) ≡ n
content_length_of-before [] after header found n a hs =
    content_length_of-announced found header after n a ∙ content_length_of-after after n hs
content_length_of-before (b ∷ before) after header found n a hs = elim (header-cases b) [
  | inl (m, announced) ↦
      content_length_of-announced found b (before ++ (header ∷ after)) m announced
      ∙ content_length_of-before before after header m n a hs
  | inr silent ↦
      content_length_of-silent found b (before ++ (header ∷ after)) silent
      ∙ content_length_of-before before after header found n a hs
]

-- The number that is found is the body length, and there is no other.
pub content_length_of-IsBodyLength :
    (headers : List RawHeader) (n : ℕ) → (content_length_of 0 headers ≡ n) ↔ IsBodyLength headers n
content_length_of-IsBodyLength headers n = (forth, back)
  where
    forth : content_length_of 0 headers ≡ n → IsBodyLength headers n
    forth e = elim (content_length_of-last_announced headers 0) [
      | inl (all_silent, is) ↦ inl (all_silent, sym e ∙ is)
      | inr (before, last, after, split, a, later) ↦
          inr (before, last, after, split, subst (Announces last) e a, later)
    ]

    back : IsBodyLength headers n → content_length_of 0 headers ≡ n
    back (inl (all_silent, is)) = content_length_of-after headers 0 all_silent ∙ sym is
    back (inr (before, last, after, split, a, later)) =
        ap (content_length_of 0) split ∙ content_length_of-before before after last 0 n a later
