-- ===== src/Cache/Expiry.antt =====
-- src/parser_cache.rs: reading from the response cache, and expiry.
use kode_bridge.Base.{
  ℕ, ◌≤◌, ◌≡◌, refl, inl, inr, Option, none, some, [], ◌∷◌, Option-cases, if◌then◌else◌, arith,
}
use kode_bridge.Cache.{
  CacheKey, CachedResponse, Entries, ResponseCache, key_eq, find, is_past, get, put, retain_live,
  cleanup_expired,
}
use kode_bridge.Cache.Map.{key_eq_iff, find-remove, HasUniqueKeys}
use kode_bridge.Cache.Eviction.{find-put}

-- What a reader may be given at an instant.
abbrev pub live : ℕ → Option CachedResponse → Option CachedResponse
live now none = none
live now (some r) = if is_past now r.expires_at then none else some r

get-live :
    (c : ResponseCache) (k : CacheKey) (now : ℕ) → (get c k now).1 ≡ live now (find k c.cache)
unfolding get
get-live c k now = elim (Option-cases (find k c.cache)) [
  | inl e ↦ ground arith
  | inr (r, e) ↦ ground arith
]

find-get :
    (c : ResponseCache) (k j : CacheKey) (now : ℕ)
    → find j (get c k now).0.cache
      ≡ (if key_eq k j then live now (find k c.cache) else find j c.cache)
unfolding get
find-get c k j now = elim (Option-cases (find k c.cache)) [
  | inl e ↦ ground (arith, key_eq_iff k j)
  | inr (r, e) ↦ ground (arith, key_eq_iff k j, find-remove k j c.cache)
]

live-live :
    (now later : ℕ) (o : Option CachedResponse)
    → now ≤ later
    → live later (live now o) ≡ live later o
unfolding is_past
live-live now later none h = refl
live-live now later (some r) h = ground arith

-- A read answers with the stored response while it is not past its expiry, and with nothing
-- afterwards; the entries of other keys are as before, and an expired one is gone.
pub get_lem :
    (c : ResponseCache) (k j : CacheKey) (now : ℕ)
    → ((get c k now).1 ≡ live now (find k c.cache))
      × (find j (get c k now).0.cache
          ≡ (if key_eq k j then live now (find k c.cache) else find j c.cache))
get_lem c k j now = (get-live c k now, find-get c k j now)

-- A response that was just stored is read back, exactly while it is not past its expiry.
pub get-put :
    (c : ResponseCache) (k : CacheKey) (r : CachedResponse) (now : ℕ)
    → (get (put c k r) k now).1 ≡ live now (some r)
get-put c k r now = rw (get-live (put c k r) k now, find-put c k r)

find-retain_live :
    (k : CacheKey) (m : Entries) (now : ℕ)
    → HasUniqueKeys m
    → find k (retain_live now m) ≡ live now (find k m)
unfolding find retain_live
find-retain_live k [] now u = refl
find-retain_live k ((i, v) ∷ m) now u =
    ground (arith, find-retain_live k m now u.1, key_eq_iff i k, u.0)

-- `cleanup_expired` changes no answer: a read after it answers as it would have without it, then
-- and at any later instant.
get-cleanup_expired :
    (c : ResponseCache) (k : CacheKey) (now later : ℕ)
    → HasUniqueKeys c.cache
    → now ≤ later
    → (get (cleanup_expired c now) k later).1 ≡ (get c k later).1
unfolding cleanup_expired
get-cleanup_expired c k now later u h =
    rw (get-live (cleanup_expired c now) k later, get-live c k later)
      (rw (find-retain_live k c.cache now u) (live-live now later (find k c.cache) h))
