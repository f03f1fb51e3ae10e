-- ===== src/Metrics/Percentile.antt =====
-- src/metrics.rs, `LatencyTracker::percentile`: it is an order statistic of the samples.
use kode_bridge.Base.{
  ℕ, zero, suc, ◌-◌, ◌≤◌, ◌<◌, ◌≡◌, refl, ap, ◌∙◌, inl, inr, some, List, [], ◌∷◌, length, get_elem?,
  All, Bool-cases, ltb, leb, if◌then◌else◌, arith,
}
use kode_bridge.Metrics.Trackers.{
  Floats, LatencyTracker, insert_sorted, sort, percentile_of, percentile, value_at,
}

-- How many samples are below a value, and how many are at most it.
unfoldable pub below : ℕ → List ℕ → ℕ
below v [] = 0
below v (x ∷ xs) = let rest = below v xs in if ltb x v then suc rest else rest

unfoldable pub at_most : ℕ → List ℕ → ℕ
at_most v [] = 0
at_most v (x ∷ xs) = let rest = at_most v xs in if leb x v then suc rest else rest

IsSorted : List ℕ → Type 0
IsSorted [] = Unit
IsSorted (x ∷ xs) = All (λ y. x ≤ y) xs × IsSorted xs

insert_sorted-All :
    (b x : ℕ) (xs : List ℕ) → b ≤ x → All (λ y. b ≤ y) xs → All (λ y. b ≤ y) (insert_sorted x xs)
unfolding insert_sorted
insert_sorted-All b x [] h hs = (h, tt)
insert_sorted-All b x (y ∷ ys) h hs = elim (Bool-cases (leb x y)) [
  | inl e ↦ rw (insert_sorted, e) (h, hs)
  | inr e ↦ rw (insert_sorted, e) (hs.0, insert_sorted-All b x ys h hs.1)
]

All-le : (a b : ℕ) (xs : List ℕ) → a ≤ b → All (λ y. b ≤ y) xs → All (λ y. a ≤ y) xs
All-le a b [] h hs = tt
All-le a b (x ∷ xs) h hs = (omega (arith, hs.0), All-le a b xs h hs.1)

insert_sorted-IsSorted : (x : ℕ) (xs : List ℕ) → IsSorted xs → IsSorted (insert_sorted x xs)
unfolding insert_sorted IsSorted
insert_sorted-IsSorted x [] s = (tt, tt)
insert_sorted-IsSorted x (y ∷ ys) s = elim (Bool-cases (leb x y)) [
  | inl e ↦
      let le : x ≤ y = ground arith in
      rw (IsSorted, insert_sorted, e) ((le, All-le x y ys le s.0), s)
  | inr e ↦
      let le : y ≤ x = ground arith in
      rw (IsSorted, insert_sorted, e)
        (insert_sorted-All y x ys le s.0, insert_sorted-IsSorted x ys s.1)
]

sort-IsSorted : (xs : List ℕ) → IsSorted (sort xs)
unfolding sort IsSorted
sort-IsSorted [] = tt
sort-IsSorted (x ∷ xs) = insert_sorted-IsSorted x (sort xs) (sort-IsSorted xs)

length-insert_sorted : (x : ℕ) (xs : List ℕ) → length (insert_sorted x xs) ≡ suc (length xs)
unfolding insert_sorted
length-insert_sorted x [] = refl
length-insert_sorted x (y ∷ ys) = ground (arith, length-insert_sorted x ys)

length-sort : (xs : List ℕ) → length (sort xs) ≡ length xs
unfolding sort
length-sort [] = refl
length-sort (x ∷ xs) = length-insert_sorted x (sort xs) ∙ ap suc (length-sort xs)

below-insert_sorted : (v x : ℕ) (xs : List ℕ) → below v (insert_sorted x xs) ≡ below v (x ∷ xs)
unfolding insert_sorted below
below-insert_sorted v x [] = refl
below-insert_sorted v x (y ∷ ys) = ground (arith, below-insert_sorted v x ys)

below-sort : (v : ℕ) (xs : List ℕ) → below v (sort xs) ≡ below v xs
unfolding sort below
below-sort v [] = refl
below-sort v (x ∷ xs) = below-insert_sorted v x (sort xs) ∙ ground (arith, below-sort v xs)

at_most-insert_sorted :
    (v x : ℕ) (xs : List ℕ) → at_most v (insert_sorted x xs) ≡ at_most v (x ∷ xs)
unfolding insert_sorted at_most
at_most-insert_sorted v x [] = refl
at_most-insert_sorted v x (y ∷ ys) = ground (arith, at_most-insert_sorted v x ys)

at_most-sort : (v : ℕ) (xs : List ℕ) → at_most v (sort xs) ≡ at_most v xs
unfolding sort at_most
at_most-sort v [] = refl
at_most-sort v (x ∷ xs) = at_most-insert_sorted v x (sort xs) ∙ ground (arith, at_most-sort v xs)

none_below : (v : ℕ) (xs : List ℕ) → All (λ y. v ≤ y) xs → below v xs ≡ 0
unfolding below
none_below v [] hs = refl
none_below v (x ∷ xs) hs = ground (arith, hs.0, none_below v xs hs.1)

-- The value at an index of a sorted list has at most that many values below it, and the value
-- itself and they are more.
ranked :
    (xs : List ℕ) (i : ℕ)
    → IsSorted xs
    → i < length xs
    → (v : ℕ) × (get_elem? xs i ≡ some v)
      × (below v xs ≤ i)
      × (i < at_most v xs)
      × ((b : ℕ) → All (λ y. b ≤ y) xs → b ≤ v)
unfolding IsSorted below at_most
ranked [] i s h = absurd (omega arith)
ranked (x ∷ xs) zero s h =
    (x, refl, ground (arith, none_below x xs s.0), ground arith, λ b hs. hs.0)
ranked (x ∷ xs) (suc i) s h =
    let (v, at, under, over, least) = ranked xs i s.1 (omega arith) in
    let le = least x s.0 in (v, at, ground arith, ground arith, λ b hs. least b hs.1)

-- Where the rank that the rounding gives is an index of the samples, the percentile is that order
-- statistic: at most that many samples are below it, and more than that many are at most it.
pub percentile_lem :
    (f : Floats) (p : ℕ) (t : LatencyTracker)
    → f.rank (length t.samples - 1) p < length t.samples
    → (v : ℕ) × (percentile f p t ≡ value_at v)
      × (below v t.samples ≤ f.rank (length t.samples - 1) p)
      × (f.rank (length t.samples - 1) p < at_most v t.samples)
unfolding percentile percentile_of
percentile_lem f p t h = (go t.samples (f.rank (length t.samples - 1) p) h)
  where
    go :
        (xs : List ℕ) (i : ℕ)
        → i < length xs
        → (v : ℕ) × (percentile_of i xs ≡ value_at v) × (below v xs ≤ i) × (i < at_most v xs)
    go [] i h = absurd (omega arith)
    go (x ∷ xs) i h =
        let (v, at, under, over, least) =
          ranked (sort (x ∷ xs)) i (sort-IsSorted (x ∷ xs)) (omega (arith, length-sort (x ∷ xs))) in
        (
          v,
          ground (arith, at),
          omega (arith, below-sort v (x ∷ xs)),
          omega (arith, at_most-sort v (x ∷ xs)),
        )
