-- ===== src/ParserCache/Bounds.antt =====
-- src/parser_cache.rs, `HttpParserCache`: the cache stays within its size.
use kode_bridge.Base.{
  ℕ, zero, suc, ◌^◌, ◌≤◌, ◌<◌, min, max, ◌≡◌, refl, [], ◌∷◌, length, length-append, replicate,
  arith,
}
use kode_bridge.ParserCache.{
  HttpParserCache, parser, get, drop_parser, to_create, warm_up, Event, gets, drops, warms, step,
}

length-replicate {ℓ} : {A : Type ℓ} (n : ℕ) (a : A) → length (replicate n a) ≡ n
length-replicate zero a = refl
length-replicate (suc n) a = omega (arith, length-replicate n a)

pub record IsBounded (size : ℕ) (c : HttpParserCache) : Type 0 where
  pub sized : c.max_cache_size ≡ size
  pub bounded : length c.parsers ≤ size

module _ (size : ℕ) (small : size < 2 ^ 64) where
  -- Warming up creates parsers until there are `count` of them or the cache is full, and never
  -- takes one away.
  pub length-warm_up :
      (c : HttpParserCache) (count : ℕ)
      → IsBounded size c
      → length (warm_up c count).parsers ≡ max (length c.parsers) (min count size)
  unfolding warm_up to_create
  length-warm_up c count h = omega (
    arith,
    length-append c.parsers (replicate (to_create c count) parser),
    length-replicate (to_create c count) parser,
    h.sized,
    h.bounded,
  )

  -- No lending, return or warming takes the cache over its size.
  pub step-IsBounded :
      (c : HttpParserCache) (e : Event) → IsBounded size c → IsBounded size (step c e)
  unfolding step get drop_parser
  step-IsBounded c gets h = ground arith
  step-IsBounded c drops h = ground (arith, length-append c.parsers (parser ∷ []))
  step-IsBounded c (warms count) h = record {
    sized = unfold warm_up in h.sized;
    bounded = omega (arith, length-warm_up c count h, h.bounded);
  }
