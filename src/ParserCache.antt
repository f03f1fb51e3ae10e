-- ===== src/ParserCache.antt =====
-- src/parser_cache.rs: `HttpParserCache`, which lends parsers and takes them back. A
-- `ReusableParser` has no state. `lent` counts the `CachedParser` values that are alive.
pub mod Bounds
mod Tests
use kode_bridge.Base.{
  ℕ, zero, suc, ◌+◌, ◌-◌, ◌%◌, ◌^◌, min, List, [], ◌∷◌, ◌++◌, length, replicate, ltb, ◌==◌,
  if◌then◌else◌,
}

pub data ReusableParser : Type 0 where
  parser : ReusableParser

pub record HttpParserCache : Type 0 where
  pub parsers : List ReusableParser
  pub max_cache_size : ℕ
  pub lent : ℕ

unfoldable pub new : ℕ → HttpParserCache
new max_cache_size = record { parsers = []; max_cache_size = max_cache_size; lent = 0 }

-- A new parser is made if the cache is empty.
unfoldable pub get : HttpParserCache → HttpParserCache
get c = elim c.parsers [
  | [] ↦ record c { lent = c.lent + 1 }
  | p ∷ rest ↦ record c { parsers = rest; lent = c.lent + 1 }
]

-- `Drop for CachedParser`
unfoldable pub drop_parser : HttpParserCache → HttpParserCache
drop_parser c =
    let c' = record c { lent = c.lent - 1 } in
    if ltb (length c.parsers) c.max_cache_size
    then record c' { parsers = c.parsers ++ parser ∷ [] }
    else c'

-- `count.saturating_sub(len)`, and a subtraction that wraps.
unfoldable pub to_create : HttpParserCache → ℕ → ℕ
to_create c count =
    min (count - length c.parsers) ((c.max_cache_size + 2 ^ 64 - length c.parsers) % 2 ^ 64)

unfoldable pub warm_up : HttpParserCache → ℕ → HttpParserCache
warm_up c count = record c { parsers = c.parsers ++ replicate (to_create c count) parser }

unfoldable pub global_parser_cache : HttpParserCache
unfolding new warm_up to_create
global_parser_cache = warm_up (new 8) 4

pub data Event : Type 0 where
  gets drops : Event
  warms : ℕ → Event

-- Only a parser that is lent can be dropped.
unfoldable pub step : HttpParserCache → Event → HttpParserCache
step c gets = get c
step c drops = if c.lent == 0 then c else drop_parser c
step c (warms count) = warm_up c count

unfoldable pub run : HttpParserCache → List Event → HttpParserCache
run c [] = c
run c (e ∷ es) = run (step c e) es
