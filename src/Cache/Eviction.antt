-- ===== src/Cache/Eviction.antt =====
-- src/parser_cache.rs, `ResponseCache::put`: the size of the cache, and what is evicted.
use mathlib.Core.Path.{subst}
use kode_bridge.Base.{
  ◌≤◌, ◌<◌, ◌≡◌, refl, ◌∙◌, ◌≢◌, ◌⊎◌, inl, inr, none, some, [], ◌∷◌, length, All, Bool-cases,
  Option-cases, leb, arith,
}
use kode_bridge.Cache.{
  CacheKey, CachedResponse, Entries, ResponseCache, key_eq, find, remove, insert, older,
  oldest_from, oldest, evict, put,
}
use kode_bridge.Cache.Map.{
  key_eq_iff, find-remove, find-insert, HasUniqueKeys, remove-HasUniqueKeys, insert-HasUniqueKeys,
  length-remove-le, length-remove,
}

abbrev Entry : Type 0
Entry = CacheKey × CachedResponse

abbrev In : Entry → Entries → Type 0
In e [] = ⊥
In e (x ∷ m) = (e ≡ x) ⊎ In e m

-- The entry was stored no later than any entry of the map.
abbrev pub IsOldest : CachedResponse → Entries → Type 0
IsOldest v m = All (λ e. v.cached_at ≤ (e.1).cached_at) m

older-eq : (best e : Entry) → (older best e ≡ best) ⊎ (older best e ≡ e)
unfolding older
older-eq best e = ground arith

older-le :
    (best e : Entry)
    → ((older best e).1.cached_at ≤ (best.1).cached_at)
      × ((older best e).1.cached_at ≤ (e.1).cached_at)
unfolding older
older-le best e = ground arith

oldest_from-In : (best : Entry) (m : Entries) → In (oldest_from best m) (best ∷ m)
unfolding oldest_from
oldest_from-In best [] = inl refl
oldest_from-In best (e ∷ m) = widen (older-eq best e) (oldest_from-In (older best e) m)
  where
    widen : {o x : Entry} → (o ≡ best) ⊎ (o ≡ e) → In x (o ∷ m) → In x (best ∷ e ∷ m)
    widen (inl p) (inl q) = inl (q ∙ p)
    widen (inr p) (inl q) = inr (inl (q ∙ p))
    widen p (inr q) = inr (inr q)

oldest_from-IsOldest : (best : Entry) (m : Entries) → IsOldest (oldest_from best m).1 (best ∷ m)
unfolding oldest_from
oldest_from-IsOldest best [] = (omega arith, tt)
oldest_from-IsOldest best (e ∷ m) =
    let all = oldest_from-IsOldest (older best e) m in
    let le = older-le best e in (omega (arith, all.0, le.0), (omega (arith, all.0, le.1), all.1))

In-find : (e : Entry) (m : Entries) → In e m → (v : CachedResponse) × (find e.0 m ≡ some v)
unfolding find
In-find e [] i = absurd i
In-find e ((k, w) ∷ m) (inl p) = (w, ground (arith, key_eq_iff k e.0))
In-find e ((k, w) ∷ m) (inr p) = elim (Bool-cases (key_eq k e.0)) [
  | inl h ↦ (w, rw h)
  | inr h ↦ let (v, f) = In-find e m p in (v, rw h f)
]

find-In : (e : Entry) (m : Entries) → HasUniqueKeys m → In e m → find e.0 m ≡ some e.1
unfolding find
find-In e [] u i = absurd i
find-In e ((k, w) ∷ m) u (inl p) = ground (arith, key_eq_iff k e.0)
find-In e ((k, w) ∷ m) u (inr p) =
    let (v, f) = In-find e m p in ground (arith, find-In e m u.1 p, key_eq_iff k e.0, u.0)

-- The key that would be evicted belongs to an entry that no other is older than.
pub oldest-IsOldest :
    (m : Entries) (k : CacheKey)
    → HasUniqueKeys m
    → oldest m ≡ some k
    → (v : CachedResponse) × (find k m ≡ some v) × IsOldest v m
unfolding oldest
oldest-IsOldest [] k u h = cc
oldest-IsOldest (e ∷ m) k u h =
    let r = oldest_from e m in
    let at : r.0 ≡ k = ground arith in
    (r.1, rw (← at) (find-In r (e ∷ m) u (oldest_from-In e m)), oldest_from-IsOldest e m)

-- A cache within its size, with one entry for each key.
pub record IsSound (c : ResponseCache) : Type 0 where
  pub unique : HasUniqueKeys c.cache
  pub bounded : length c.cache ≤ c.max_entries

evict_cases :
    (c : ResponseCache)
    → ((length c.cache < c.max_entries) × (evict c ≡ c.cache))
      ⊎ ((c.max_entries ≤ length c.cache) × (oldest c.cache ≡ none) × (evict c ≡ c.cache))
      ⊎ ((c.max_entries ≤ length c.cache)
          × ((k : CacheKey) × (oldest c.cache ≡ some k) × (evict c ≡ remove k c.cache)))
unfolding evict
evict_cases c = elim (Option-cases (oldest c.cache)) [
  | inl e ↦ ground arith
  | inr (k, e) ↦ elim (Bool-cases (leb c.max_entries (length c.cache))) [
    | inl full ↦ inr (inr (ground arith, (k, e, ground arith)))
    | inr room ↦ inl (ground arith, ground arith)
  ]
]

oldest-none : (m : Entries) → oldest m ≡ none → length m ≡ 0
unfolding oldest
oldest-none [] h = refl
oldest-none (e ∷ m) h = cc

evict-HasUniqueKeys : (c : ResponseCache) → HasUniqueKeys c.cache → HasUniqueKeys (evict c)
evict-HasUniqueKeys c u = elim (evict_cases c) [
  | inl (_, e) ↦ rw e u
  | inr (inl (_, _, e)) ↦ rw e u
  | inr (inr (_, (k, _, e))) ↦ rw e (remove-HasUniqueKeys k c.cache u)
]

length-evict :
    (c : ResponseCache) → 0 < c.max_entries → IsSound c → length (evict c) < c.max_entries
length-evict c pos h = elim (evict_cases c) [
  | inl (room, e) ↦ rw e room
  | inr (inl (_, o, e)) ↦ rw e (omega (arith, oldest-none c.cache o))
  | inr (inr (_, (k, o, e))) ↦
      let (v, f, _) = oldest-IsOldest c.cache k h.unique o in
      rw e (omega (arith, length-remove k c.cache v h.unique f, h.bounded))
]

-- If `max_entries` is positive, storing a response in a cache with one entry for each key and at most
-- `max_entries` of them leaves such a cache.
pub put-IsSound :
    (c : ResponseCache) (k : CacheKey) (r : CachedResponse)
    → 0 < c.max_entries
    → IsSound c
    → IsSound (put c k r)
unfolding put
put-IsSound c k r pos h = record {
  unique = insert-HasUniqueKeys k r (evict c) (evict-HasUniqueKeys c h.unique);
  bounded = unfold insert in omega (arith, length-remove-le k (evict c), length-evict c pos h);
}

-- Of another key than the one that is stored, the entry is kept, unless the cache was full and the
-- entry was one that no other was older than; then the cache has no entry for that key any more.
pub put_evicts_only-IsOldest :
    (c : ResponseCache) (k j : CacheKey) (r v : CachedResponse)
    → HasUniqueKeys c.cache
    → k ≢ j
    → find j c.cache ≡ some v
    → (find j (put c k r).cache ≡ some v)
      ⊎ ((find j (put c k r).cache ≡ none) × (c.max_entries ≤ length c.cache) × IsOldest v c.cache)
unfolding put
put_evicts_only-IsOldest c k j r v u ne h = elim (evict_cases c) [
  | inl (_, e) ↦ inl (rw e (ground (arith, find-insert k j r c.cache, key_eq_iff k j)))
  | inr (inl (_, _, e)) ↦ inl (rw e (ground (arith, find-insert k j r c.cache, key_eq_iff k j)))
  | inr (inr (full, (o, is, e))) ↦
      let (w, f, all) = oldest-IsOldest c.cache o u is in
      let found = find-insert k j r (remove o c.cache) in
      let left = find-remove o j c.cache in
      elim (Bool-cases (key_eq o j)) [
        | inl same ↦
            let there : w ≡ v = ground (arith, key_eq_iff o j) in
            inr (
              rw e (ground (arith, found, left, key_eq_iff k j)),
              full,
              subst (λ x. IsOldest x c.cache) there all,
            )
        | inr other ↦ inl (rw e (ground (arith, found, left, key_eq_iff k j)))
      ]
]

-- The response that was stored is there.
pub find-put :
    (c : ResponseCache) (k : CacheKey) (r : CachedResponse) → find k (put c k r).cache ≡ some r
unfolding put
find-put c k r = ground (arith, find-insert k k r (evict c), key_eq_iff k k)
