-- ===== src/Config/Validity.antt =====
-- src/config.rs: which configurations are valid, and which calls of the builder keep them so.
use text.Mathlib.Text.{◌==◌ as str_eq}
use text.Mathlib.TextEquality.{eq_iff}
use kode_bridge.Base.{
  ◌≤◌, ◌<◌, ◌*◌, ◌^◌, ◌≡◌, ◌↔◌, ◌⊎◌, inl, inr, refl, ap, String, Bool, true, ◌||◌, List, [], ◌∷◌,
  All, Bool-cases, arith,
}
use kode_bridge.Errors.{ok}
use kode_bridge.Config.{
  PoolSettings, GlobalConfig, default_pool, default_client, default_logging, default_global,
  contains, levels, validate, BuilderCall, client_timeout, enable_pooling, pool_config, max_retries,
  enable_logging, enable_feature, call, build,
}

-- The levels of logging.
abbrev pub IsLevel : String → Type 0
IsLevel level =
    (level ≡ "trace") ⊎ (level ≡ "debug") ⊎ (level ≡ "info") ⊎ (level ≡ "warn") ⊎ (level ≡ "error")

abbrev pub IsValidPool : PoolSettings → Type 0
IsValidPool pool = (1 ≤ pool.max_size) × (pool.min_idle ≤ pool.max_size)

pub record IsValid (config : GlobalConfig) : Type 0 where
  pub timeout_positive : 1 ≤ config.client.default_timeout_ms
  pub few_retries : config.client.max_retries ≤ 10
  pub pool_valid : IsValidPool config.client.pool
  pub level_known : IsLevel config.logging.level

named :
    (level name : String) (others : Bool)
    → (str_eq level name || others) ≡ true
    → (level ≡ name) ⊎ (others ≡ true)
named level name others e = elim (Bool-cases (str_eq level name)) [
  | inl same ↦ inl ((eq_iff level name).0 same)
  | inr other ↦ inr (ground (arith, other))
]

abbrev IsIn : String → List String → Type 0
IsIn level [] = ⊥
IsIn level (x ∷ []) = level ≡ x
IsIn level (x ∷ y ∷ ys) = (level ≡ x) ⊎ IsIn level (y ∷ ys)

IsIn-later : (level x : String) (xs : List String) → IsIn level xs → IsIn level (x ∷ xs)
IsIn-later level x [] h = absurd h
IsIn-later level x (y ∷ ys) h = inr h

IsIn-here : (level x : String) (xs : List String) → level ≡ x → IsIn level (x ∷ xs)
IsIn-here level x [] is = is
IsIn-here level x (y ∷ ys) is = inl is

contains-IsIn : (level : String) (xs : List String) → contains level xs ≡ true → IsIn level xs
unfolding contains
contains-IsIn level [] e = absurd cc
contains-IsIn level (x ∷ xs) e = elim (named level x (contains level xs) e) [
  | inl is ↦ IsIn-here level x xs is
  | inr later ↦ IsIn-later level x xs (contains-IsIn level xs later)
]

contains-IsLevel : (level : String) → IsLevel level → contains level levels ≡ true
unfolding contains
contains-IsLevel level (inl is) = ap (λ l. contains l levels) is
contains-IsLevel level (inr (inl is)) = ap (λ l. contains l levels) is
contains-IsLevel level (inr (inr (inl is))) = ap (λ l. contains l levels) is
contains-IsLevel level (inr (inr (inr (inl is)))) = ap (λ l. contains l levels) is
contains-IsLevel level (inr (inr (inr (inr is)))) = ap (λ l. contains l levels) is

-- A configuration passes the validation exactly if its timeout is not zero, it has at most ten
-- retries, its pool has room for at least one connection and for the idle ones, and its level is one
-- of the five.
pub validate-IsValid : (config : GlobalConfig) → validate config ≡ ok tt ↔ IsValid config
unfolding validate
validate-IsValid config = (forth, back)
  where
    forth : validate config ≡ ok tt → IsValid config
    forth e = elim (Bool-cases (contains config.logging.level levels)) [
      | inr unknown ↦ absurd (ground (arith, unknown))
      | inl known ↦ record {
        timeout_positive = ground arith;
        few_retries = ground arith;
        pool_valid = ground arith;
        level_known = contains-IsIn config.logging.level levels known;
      }
    ]

    back : IsValid config → validate config ≡ ok tt
    back v =
        let known = contains-IsLevel config.logging.level v.level_known in
        let timeout = v.timeout_positive in
        let retries = v.few_retries in
        let (room, idle) = v.pool_valid in ground (arith, known, timeout, retries, room, idle)

unfoldable pub run : List BuilderCall → GlobalConfig → GlobalConfig
run [] config = config
run (c ∷ cs) config = run cs (call c config)

-- A call with a value that the validation allows.
abbrev pub IsGoodCall : BuilderCall → Type 0
IsGoodCall (client_timeout duration) = (1_000_000 ≤ duration) × (duration < 2 ^ 64 * 1_000_000)
IsGoodCall (enable_pooling enabled) = Unit
IsGoodCall (pool_config settings) = IsValidPool settings
IsGoodCall (max_retries retries) = retries ≤ 10
IsGoodCall (enable_logging level) = IsLevel level
IsGoodCall (enable_feature feature) = Unit

call-IsValid :
    (c : BuilderCall) (config : GlobalConfig)
    → IsGoodCall c
    → IsValid config
    → IsValid (call c config)
unfolding call
call-IsValid (client_timeout duration) config good v = record {
  timeout_positive = omega (arith, good.0, good.1);
  few_retries = v.few_retries;
  pool_valid = v.pool_valid;
  level_known = v.level_known;
}
call-IsValid (enable_pooling enabled) config good v = record {
  timeout_positive = v.timeout_positive;
  few_retries = v.few_retries;
  pool_valid = v.pool_valid;
  level_known = v.level_known;
}
call-IsValid (pool_config settings) config good v = record {
  timeout_positive = v.timeout_positive;
  few_retries = v.few_retries;
  pool_valid = good;
  level_known = v.level_known;
}
call-IsValid (max_retries retries) config good v = record {
  timeout_positive = v.timeout_positive;
  few_retries = good;
  pool_valid = v.pool_valid;
  level_known = v.level_known;
}
call-IsValid (enable_logging level) config good v = record {
  timeout_positive = v.timeout_positive;
  few_retries = v.few_retries;
  pool_valid = v.pool_valid;
  level_known = good;
}
call-IsValid (enable_feature feature) config good v = record {
  timeout_positive = v.timeout_positive;
  few_retries = v.few_retries;
  pool_valid = v.pool_valid;
  level_known = v.level_known;
}

run-IsValid :
    (cs : List BuilderCall) (config : GlobalConfig)
    → All IsGoodCall cs
    → IsValid config
    → IsValid (run cs config)
unfolding run
run-IsValid [] config good v = v
run-IsValid (c ∷ cs) config good v =
    run-IsValid cs (call c config) good.1 (call-IsValid c config good.0 v)

default_global-IsValid : IsValid default_global
unfolding default_global default_client default_pool default_logging
default_global-IsValid = record {
  timeout_positive = omega arith;
  few_retries = omega arith;
  pool_valid = (omega arith, omega arith);
  level_known = inr (inr (inl refl));
}

-- After calls that the validation allows, in whatever order, the builder gives its configuration.
pub build-run :
    (cs : List BuilderCall)
    → All IsGoodCall cs
    → build (run cs default_global) ≡ ok (run cs default_global)
unfolding build
build-run cs good =
    let valid =
      (validate-IsValid (run cs default_global)).1
        (run-IsValid cs default_global good default_global-IsValid) in
    rw (build, valid) refl
