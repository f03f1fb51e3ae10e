-- ===== src/Codec/HeaderEnd.antt =====
-- src/codec.rs, `find_header_end`: it finds the first blank line.
use kode_bridge.Base.{
  ℕ, zero, suc, ◌+◌, ◌≤◌, ◌<◌, ◌≡◌, refl, ◌⊎◌, inl, inr, true, false, none, some, [], ◌∷◌, ◌++◌,
  length, drop, Bool-cases, Option-cases, arith,
}
use kode_bridge.Bytes.{Bytes}
use kode_bridge.Codec.{is_header_end, find_header_end}

-- Four bytes of the buffer end its headers.
abbrev pub EndsHeaders : Bytes → ℕ → Type 0
EndsHeaders src n = is_header_end (drop n src) ≡ true

-- The position that is found is that of the first blank line; if none is found there is none.
pub find_header_end-first :
    (src : Bytes)
    → ((n : ℕ) × (find_header_end src ≡ some n)
        × EndsHeaders src n
        × ((m : ℕ) → m < n → ¬ EndsHeaders src m))
      ⊎ ((find_header_end src ≡ none) × ((m : ℕ) → ¬ EndsHeaders src m))
unfolding find_header_end is_header_end
find_header_end-first [] = inr (refl, none_in_empty)
  where
    none_in_empty : (m : ℕ) → ¬ EndsHeaders [] m
    none_in_empty zero h = cc
    none_in_empty (suc m) h = cc
find_header_end-first (x ∷ xs) = elim (Bool-cases (is_header_end (x ∷ xs))) [
  | inl here ↦ inl (0, ground (arith, here), here, λ m h. absurd (omega arith))
  | inr not_here ↦ elim (find_header_end-first xs) [
    | inl (n, f, at, before) ↦
        inl (suc n, ground (arith, not_here, f), at, first_later not_here before)
    | inr (f, never) ↦ inr (ground (arith, not_here, f), never_later not_here never)
  ]
]
  where
    first_later :
        {n : ℕ}
        → is_header_end (x ∷ xs) ≡ false
        → ((m : ℕ) → m < n → ¬ EndsHeaders xs m)
        → (m : ℕ) → m < suc n
        → ¬ EndsHeaders (x ∷ xs) m
    first_later e before zero h k = cc
    first_later e before (suc m) h k = before m (omega arith) k

    never_later :
        is_header_end (x ∷ xs) ≡ false
        → ((m : ℕ) → ¬ EndsHeaders xs m)
        → (m : ℕ) → ¬ EndsHeaders (x ∷ xs) m
    never_later e never zero k = cc
    never_later e never (suc m) k = never m k

is_header_end-append : (xs ys : Bytes) → is_header_end xs ≡ true → is_header_end (xs ++ ys) ≡ true
unfolding is_header_end
is_header_end-append (a ∷ b ∷ c ∷ d ∷ rest) ys h = h
is_header_end-append _ ys h = cc

pub find-cons :
    (x : ℕ) (xs : Bytes) (n : ℕ)
    → find_header_end (x ∷ xs) ≡ some n
    → ((is_header_end (x ∷ xs) ≡ true) × (n ≡ 0))
      ⊎ ((is_header_end (x ∷ xs) ≡ false) × ((m : ℕ) × (find_header_end xs ≡ some m) × (n ≡ suc m)))
unfolding find_header_end
find-cons x xs n h = elim (Bool-cases (is_header_end (x ∷ xs))) [
  | inl e ↦ inl (e, ground arith)
  | inr e ↦ elim (Option-cases (find_header_end xs)) [
    | inl f ↦ absurd (ground arith)
    | inr (m, f) ↦ inr (e, (m, f, ground arith))
  ]
]

length-is_header_end : (xs : Bytes) → is_header_end xs ≡ true → 4 ≤ length xs
unfolding is_header_end
length-is_header_end (a ∷ b ∷ c ∷ d ∷ rest) h = omega arith
length-is_header_end _ h = cc

-- The blank line lies within the buffer.
pub find_header_end-le : (src : Bytes) (n : ℕ) → find_header_end src ≡ some n → n + 4 ≤ length src
find_header_end-le [] n h = unfold find_header_end in cc
find_header_end-le (x ∷ xs) n h = elim (find-cons x xs n h) [
  | inl (e, z) ↦ omega (arith, length-is_header_end (x ∷ xs) e)
  | inr (e, (m, f, s)) ↦ omega (arith, find_header_end-le xs m f)
]

is_header_end-take : (xs ys : Bytes) → 4 ≤ length xs → is_header_end (xs ++ ys) ≡ is_header_end xs
unfolding is_header_end
is_header_end-take (a ∷ b ∷ c ∷ d ∷ rest) ys h = refl
is_header_end-take [] ys h = absurd (omega arith)
is_header_end-take (a ∷ []) ys h = absurd (omega arith)
is_header_end-take (a ∷ b ∷ []) ys h = absurd (omega arith)
is_header_end-take (a ∷ b ∷ c ∷ []) ys h = absurd (omega arith)

-- Bytes that arrive later do not move it.
pub find_header_end-append :
    (src more : Bytes) (n : ℕ)
    → find_header_end src ≡ some n
    → find_header_end (src ++ more) ≡ some n
unfolding find_header_end
find_header_end-append [] more n h = cc
find_header_end-append (x ∷ xs) more n h = elim (find-cons x xs n h) [
  | inl (e, z) ↦ ground (arith, is_header_end-append (x ∷ xs) more e)
  | inr (e, (m, f, s)) ↦
      let room = find_header_end-le xs m f in
      ground (
        arith,
        find_header_end-append xs more m f,
        is_header_end-take (x ∷ xs) more (omega (arith, room)),
      )
]
