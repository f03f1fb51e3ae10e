-- ===== src/ParserCache/Tests.antt =====
-- Runs of the parser cache of src/parser_cache.rs, and the theorems applied there.
use kode_bridge.Base.{◌≡◌, refl, [], ◌∷◌, length, arith}
use kode_bridge.ParserCache.{
  HttpParserCache, parser, new, get, drop_parser, warm_up, global_parser_cache, gets, drops, step,
  run,
}
use kode_bridge.ParserCache.Bounds.{IsBounded, length-warm_up}

warm : HttpParserCache
warm = record { parsers = parser ∷ parser ∷ []; max_cache_size = 4; lent = 1 }

global_has_four : length global_parser_cache.parsers ≡ 4
unfolding global_parser_cache
global_has_four = refl

runs : length (run (new 1) (gets ∷ gets ∷ drops ∷ drops ∷ [])).parsers ≡ 1
unfolding run new step get drop_parser
runs = refl

warm-IsBounded : IsBounded 4 warm
unfolding warm
warm-IsBounded = ground arith

length-warm_up_example : length (warm_up warm 3).parsers ≡ 3
unfolding warm
length-warm_up_example = length-warm_up 4 (omega arith) warm 3 (unfold warm in warm-IsBounded)
