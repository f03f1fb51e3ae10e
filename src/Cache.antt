-- ===== src/Cache.antt =====
-- src/parser_cache.rs: `CacheKey` and `ResponseCache`.
-- The `HashMap` is a list of entries in its iteration order. The hash of a list of headers and
-- `str::to_lowercase` are parameters. Instants are numbers of nanoseconds; a body is its bytes.
pub mod Map
pub mod Keys
pub mod Eviction
pub mod Expiry
mod Tests
use text.Mathlib.Text.{◌==◌ as str_eq, starts_with}
use kode_bridge.Base.{
  ℕ, String, Bool, true, false, not, ◌&&◌, Option, none, some, List, [], ◌∷◌, length, ltb, leb,
  ◌==◌, if◌then◌else◌,
}

abbrev pub Header : Type 0
Header = String × String

pub record CacheKey : Type 0 where
  pub method : String
  pub path : String
  pub headers_hash : ℕ

unfoldable pub key_eq : CacheKey → CacheKey → Bool
key_eq a b = str_eq a.method b.method && str_eq a.path b.path && a.headers_hash == b.headers_hash

module _ (to_lowercase : String → String) (hash : List Header → ℕ) where
  unfoldable pub is_relevant : Header → Bool
  is_relevant (name, value) =
      let name_lower = to_lowercase name in
      not (starts_with name_lower "cache-")
      && not (str_eq name_lower "date")
      && not (str_eq name_lower "last-modified")
      && not (str_eq name_lower "etag")

  unfoldable pub relevant : List Header → List Header
  relevant [] = []
  relevant (h ∷ hs) = let rest = relevant hs in if is_relevant h then h ∷ rest else rest

  unfoldable pub new_key : String → String → List Header → CacheKey
  new_key method path headers = record {
    method = method;
    path = path;
    headers_hash = hash (relevant headers);
  }

pub record CachedResponse : Type 0 where
  pub status_code : ℕ
  pub headers : List Header
  pub body : List ℕ
  pub cached_at : ℕ
  pub expires_at : Option ℕ

abbrev pub Entries : Type 0
Entries = List (CacheKey × CachedResponse)

pub record ResponseCache : Type 0 where
  pub cache : Entries
  pub max_entries : ℕ

unfoldable pub new_cache : ℕ → ResponseCache
new_cache max_entries = record { cache = []; max_entries = max_entries }

-- `HashMap::get`, `remove` and `insert`.
unfoldable pub find : CacheKey → Entries → Option CachedResponse
find key [] = none
find key ((k, v) ∷ rest) = if key_eq k key then some v else find key rest

unfoldable pub remove : CacheKey → Entries → Entries
remove key [] = []
remove key ((k, v) ∷ rest) =
    let kept = remove key rest in if key_eq k key then kept else (k, v) ∷ kept

unfoldable pub insert : CacheKey → CachedResponse → Entries → Entries
insert key response entries = (key, response) ∷ remove key entries

-- `Instant::now() > expires_at`, and never without one.
unfoldable pub is_past : ℕ → Option ℕ → Bool
is_past now none = false
is_past now (some expires_at) = ltb expires_at now

unfoldable pub get : ResponseCache → CacheKey → ℕ → ResponseCache × Option CachedResponse
get c key now = elim (find key c.cache) [
  | none ↦ (c, none)
  | some entry ↦
      if is_past now entry.expires_at
      then (record c { cache = remove key c.cache }, none)
      else (c, some entry)
]

-- `min_by_key`: the first of the entries with the least `cached_at`.
unfoldable pub older :
    CacheKey × CachedResponse → CacheKey × CachedResponse → CacheKey × CachedResponse
older best e = if ltb (e.1).cached_at (best.1).cached_at then e else best

unfoldable pub oldest_from : CacheKey × CachedResponse → Entries → CacheKey × CachedResponse
oldest_from best [] = best
oldest_from best (e ∷ rest) = oldest_from (older best e) rest

unfoldable pub oldest : Entries → Option CacheKey
oldest [] = none
oldest (e ∷ rest) = some (oldest_from e rest).0

unfoldable pub evict : ResponseCache → Entries
evict c =
    if leb c.max_entries (length c.cache)
    then elim (oldest c.cache) [ none ↦ c.cache | some key ↦ remove key c.cache ]
    else c.cache

unfoldable pub put : ResponseCache → CacheKey → CachedResponse → ResponseCache
put c key response = record c { cache = insert key response (evict c) }

unfoldable pub retain_live : ℕ → Entries → Entries
retain_live now [] = []
retain_live now ((k, v) ∷ rest) =
    let kept = retain_live now rest in if is_past now v.expires_at then kept else (k, v) ∷ kept

unfoldable pub cleanup_expired : ResponseCache → ℕ → ResponseCache
cleanup_expired c now = record c { cache = retain_live now c.cache }

unfoldable pub clear : ResponseCache → ResponseCache
clear c = record c { cache = [] }

pub record CacheStats : Type 0 where
  pub entries : ℕ
  pub max_entries : ℕ

unfoldable pub stats : ResponseCache → CacheStats
stats c = record { entries = length c.cache; max_entries = c.max_entries }
