-- ===== src/Cache/Tests.antt =====
-- Runs of the response cache of src/parser_cache.rs, and the theorems applied there.
use text.Mathlib.TextEquality.{eq_iff}
use mathlib.Core.Bool.{false≢true}
use kode_bridge.Base.{ℕ, ◌≡◌, refl, ◌≢◌, some, [], ◌∷◌, ap, arith}
use kode_bridge.Cache.{
  CacheKey, CachedResponse, ResponseCache, key_eq, find, remove, insert, is_past, get, older,
  oldest_from, oldest, evict, put,
}
use kode_bridge.Cache.Map.{HasUniqueKeys}
use kode_bridge.Cache.Eviction.{IsSound, put-IsSound}
use kode_bridge.Cache.Expiry.{live, get_lem, get-put}

abbrev key_a : CacheKey
key_a = record { method = "GET"; path = "/a"; headers_hash = 0 }

abbrev key_b : CacheKey
key_b = record { method = "GET"; path = "/b"; headers_hash = 0 }

abbrev key_c : CacheKey
key_c = record { method = "GET"; path = "/c"; headers_hash = 0 }

abbrev stored : ℕ → CachedResponse
stored t = record {
  status_code = 200;
  headers = [];
  body = [];
  cached_at = t;
  expires_at = some 100;
}

full : ResponseCache
full = record { cache = (key_a, stored 1) ∷ (key_b, stored 2) ∷ []; max_entries = 2 }

-- The entry that was stored first makes room.
evicts_a :
    put full key_c (stored 3)
    ≡ record { cache = (key_c, stored 3) ∷ (key_b, stored 2) ∷ []; max_entries = 2 }
unfolding full put insert evict oldest oldest_from older remove key_eq
evicts_a = refl

-- To store a key again evicts the oldest entry all the same.
overwrite_evicts :
    put full key_b (stored 3) ≡ record { cache = (key_b, stored 3) ∷ []; max_entries = 2 }
unfolding full put insert evict oldest oldest_from older remove key_eq
overwrite_evicts = refl

full-HasUniqueKeys : HasUniqueKeys full.cache
unfolding full find key_eq
full-HasUniqueKeys = (refl, (refl, tt))

full-IsSound : IsSound full
unfolding full
full-IsSound = record { unique = unfold full in full-HasUniqueKeys; bounded = omega arith }

put-IsSound_example : IsSound (put full key_c (stored 3))
unfolding full
put-IsSound_example = put-IsSound full key_c (stored 3) (omega arith) full-IsSound

c≢a : key_c ≢ key_a
c≢a e = false≢true ((eq_iff "/c" "/a").1 (ap (λ k. k.path) e))

get_lem_example : (get full key_a 50).1 ≡ live 50 (find key_a full.cache)
get_lem_example = (get_lem full key_a key_b 50).0

get-put_example : (get (put full key_c (stored 3)) key_c 50).1 ≡ some (stored 3)
unfolding is_past
get-put_example = get-put full key_c (stored 3) 50
