-- ===== src/Cache/Keys.antt =====
-- src/parser_cache.rs, `CacheKey::new`: which headers tell two requests apart.
use text.Mathlib.Text.{◌==◌ as str_eq, starts_with}
use kode_bridge.Base.{ℕ, String, true, false, ◌≡◌, ◌⊎◌, List, [], ◌∷◌, ◌++◌, arith}
use kode_bridge.Cache.{Header, is_relevant, relevant, new_key}

module _ (to_lowercase : String → String) (hash : List Header → ℕ) where
  -- A header about caching or dates, by its name in lower case.
  abbrev pub IsVolatile : Header → Type 0
  IsVolatile (name, value) =
      (starts_with (to_lowercase name) "cache-" ≡ true)
      ⊎ (str_eq (to_lowercase name) "date" ≡ true)
      ⊎ (str_eq (to_lowercase name) "last-modified" ≡ true)
      ⊎ (str_eq (to_lowercase name) "etag" ≡ true)

  volatile_is_irrelevant : (h : Header) → IsVolatile h → is_relevant to_lowercase hash h ≡ false
  unfolding is_relevant
  volatile_is_irrelevant (name, value) v = ground arith

  relevant-skip :
      (xs ys : List Header) (h : Header)
      → is_relevant to_lowercase hash h ≡ false
      → relevant to_lowercase hash (xs ++ h ∷ ys) ≡ relevant to_lowercase hash (xs ++ ys)
  unfolding relevant
  relevant-skip [] ys h e = ground arith
  relevant-skip (x ∷ xs) ys h e = ground (arith, relevant-skip xs ys h e)

  -- A header about caching or dates does not change the key of a request, wherever it stands.
  pub new_key_ignores_volatile :
      (method path : String) (xs ys : List Header) (h : Header)
      → IsVolatile h
      → new_key to_lowercase hash method path (xs ++ h ∷ ys)
        ≡ new_key to_lowercase hash method path (xs ++ ys)
  unfolding new_key
  new_key_ignores_volatile method path xs ys h v =
      rw (relevant-skip xs ys h (volatile_is_irrelevant h v))
