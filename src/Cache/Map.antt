-- ===== src/Cache/Map.antt =====
-- src/parser_cache.rs: the laws of the map that the response cache stands on.
use text.Mathlib.TextEquality.{eq_iff}
use kode_bridge.Base.{
  ◌+◌, ◌≤◌, ◌≡◌, refl, ◌↔◌, inl, inr, true, none, some, [], ◌∷◌, length, Bool-cases, if◌then◌else◌,
  arith,
}
use kode_bridge.Cache.{CacheKey, CachedResponse, Entries, key_eq, find, remove, insert}

pub key_eq_iff : (a b : CacheKey) → (key_eq a b ≡ true) ↔ (a ≡ b)
unfolding key_eq
key_eq_iff a b = (
  λ h. ground (arith, eq_iff a.method b.method, eq_iff a.path b.path),
  λ h. ground (arith, eq_iff a.method b.method, eq_iff a.path b.path),
)

pub find-remove :
    (k j : CacheKey) (m : Entries) → find j (remove k m) ≡ (if key_eq k j then none else find j m)
unfolding find remove
find-remove k j [] = ground arith
find-remove k j ((i, v) ∷ m) =
    ground (arith, find-remove k j m, key_eq_iff i k, key_eq_iff i j, key_eq_iff k j)

pub find-insert :
    (k j : CacheKey) (v : CachedResponse) (m : Entries)
    → find j (insert k v m) ≡ (if key_eq k j then some v else find j m)
unfolding find insert
find-insert k j v m = ground (arith, find-remove k j m)

-- No key has two entries.
abbrev pub HasUniqueKeys : Entries → Type 0
HasUniqueKeys [] = Unit {0}
HasUniqueKeys ((k, v) ∷ rest) = (find k rest ≡ none) × HasUniqueKeys rest

pub remove-HasUniqueKeys :
    (k : CacheKey) (m : Entries) → HasUniqueKeys m → HasUniqueKeys (remove k m)
unfolding remove
remove-HasUniqueKeys k [] h = tt
remove-HasUniqueKeys k ((i, v) ∷ m) h =
    ground (arith, remove-HasUniqueKeys k m h.1, find-remove k i m)

pub insert-HasUniqueKeys :
    (k : CacheKey) (v : CachedResponse) (m : Entries)
    → HasUniqueKeys m
    → HasUniqueKeys (insert k v m)
unfolding insert
insert-HasUniqueKeys k v m h =
    (ground (arith, find-remove k k m, key_eq_iff k k), remove-HasUniqueKeys k m h)

pub length-remove-le : (k : CacheKey) (m : Entries) → length (remove k m) ≤ length m
unfolding remove
length-remove-le k [] = omega arith
length-remove-le k ((i, v) ∷ m) = ground (arith, length-remove-le k m)

pub remove-absent : (k : CacheKey) (m : Entries) → find k m ≡ none → remove k m ≡ m
unfolding find remove
remove-absent k [] h = refl
remove-absent k ((i, v) ∷ m) h = ground (arith, remove-absent k m)

pub length-remove :
    (k : CacheKey) (m : Entries) (v : CachedResponse)
    → HasUniqueKeys m
    → find k m ≡ some v
    → length m ≡ length (remove k m) + 1
unfolding find remove
length-remove k [] v u h = cc
length-remove k ((i, w) ∷ m) v u h = elim (Bool-cases (key_eq i k)) [
  | inl e ↦ ground (arith, remove-absent k m, key_eq_iff i k, u.0)
  | inr e ↦ ground (arith, length-remove k m v u.1)
]
