-- ===== src/Pool/Connect.antt =====
-- src/pool.rs: the connection attempts of `create_connection` and `get_fresh_connection`.
-- `connect n` is the answer of the n-th physical attempt, an error by its text. What is slept
-- before each further attempt is recorded.
use Prim.Native.String.{◌++◌ as append}
use mathlib.Core.Path.{subst}
use native.Mathlib.Decide.{ℕ_discrete}
use kode_bridge.Base.{
  ℕ, zero, suc, ◌+◌, ◌*◌, ◌≤◌, ◌<◌, min, max, ◌≡◌, refl, ◌⊎◌, inl, inr, Option, none, some, String,
  List, [], ◌∷◌, ◌++◌, All, All-append, arith, ◌==◌, if◌then◌else◌,
}
use kode_bridge.Errors.{Result, ok, err, connection}
use kode_bridge.Pool.{PoolConfig}

-- `std::io::Result<IpcStream>`
pub data Answer : Type 0 where
  stream : ℕ → Answer
  failure : String → Answer

unfoldable pub describe : Option String → String
describe none = "Unknown error"
describe (some text) = text

abbrev pub max_delay : ℕ
max_delay = 200 * 1_000_000

abbrev pub pooled_failure : Option String → Result ℕ
unfolding describe
pooled_failure last = err (
    connection (
      append "Failed to get fresh connection and no pooled connections available: "
        (describe last)))

abbrev pub fresh_failure : Option String → Result ℕ
unfolding describe
fresh_failure last = err (connection (append "Failed to create fresh connection: " (describe last)))

-- The rounds that are left, the next attempt, the next delay, and the last error.
unfoldable pub create_loop : (ℕ → Answer) → ℕ → ℕ → ℕ → Option String → Result ℕ × List ℕ
create_loop connect zero attempt delay last = (pooled_failure last, [])
create_loop connect (suc left) attempt delay last =
    let slept = if attempt == 0 then [] else delay ∷ [] in
    let delay' = if attempt == 0 then delay else min (delay * 2) max_delay in
    elim (connect attempt) [
      | stream s ↦ (ok s, slept)
      | failure text ↦
          let (result, rest) = create_loop connect left (attempt + 1) delay' (some text) in
          (result, slept ++ rest)
    ]

unfoldable pub create_connection : PoolConfig → (ℕ → Answer) → Result ℕ × List ℕ
create_connection config connect = create_loop connect config.max_retries 0 config.retry_delay none

unfoldable pub fresh_loop : (ℕ → Answer) → ℕ → ℕ → Option String → Result ℕ × List ℕ
fresh_loop connect zero attempt last = (fresh_failure last, [])
fresh_loop connect (suc left) attempt last =
    let slept = if attempt == 0 then [] else 10_000_000 ∷ [] in
    elim (connect attempt) [
      | stream s ↦ (ok s, slept)
      | failure text ↦
          let (result, rest) = fresh_loop connect left (attempt + 1) (some text) in
          (result, slept ++ rest)
    ]

unfoldable pub get_fresh_connection : (ℕ → Answer) → Result ℕ × List ℕ
get_fresh_connection connect = fresh_loop connect 2 0 none

module _ (connect : ℕ → Answer) where
  abbrev pub Fails : ℕ → Type 0
  Fails n = (text : String) × (connect n ≡ failure text)

  -- Of the attempts from `lo` to `hi`, the first that succeeds gives the answer; if there is none,
  -- the answer is a failure.
  abbrev pub IsFirstStream : ℕ → ℕ → (Option String → Result ℕ) → Result ℕ → Type 0
  IsFirstStream lo hi failed r =
      ((n : ℕ) × (s : ℕ) × (lo ≤ n)
        × (n < hi)
        × (connect n ≡ stream s)
        × ((m : ℕ) → lo ≤ m → m < n → Fails m)
        × (r ≡ ok s))
      ⊎ (((m : ℕ) → lo ≤ m → m < hi → Fails m) × (last : Option String) × (r ≡ failed last))

pub Answer-cases :
    (a : Answer) → ((s : ℕ) × (a ≡ stream s)) ⊎ ((text : String) × (a ≡ failure text))
Answer-cases (stream s) = inl (s, refl)
Answer-cases (failure text) = inr (text, refl)

module _ (connect : ℕ → Answer) where
  pub one_more :
      (lo hi : ℕ) (failed : Option String → Result ℕ) (r : Result ℕ)
      → Fails connect lo
      → IsFirstStream connect (lo + 1) hi failed r
      → IsFirstStream connect lo hi failed r
  one_more lo hi failed r f (inl (n, s, l, h, e, before, a)) =
      inl (n, s, omega arith, h, e, (λ m ml mh. earlier m ml mh), a)
    where
      earlier : (m : ℕ) → lo ≤ m → m < n → Fails connect m
      earlier m ml mh = elim (ℕ_discrete lo m) [
        | yes q ↦ subst (Fails connect) q f
        | no q ↦ before m (omega arith) mh
      ]
  one_more lo hi failed r f (inr (all, last, a)) = inr ((λ m ml mh. every m ml mh), last, a)
    where
      every : (m : ℕ) → lo ≤ m → m < hi → Fails connect m
      every m ml mh = elim (ℕ_discrete lo m) [
        | yes q ↦ subst (Fails connect) q f
        | no q ↦ all m (omega arith) mh
      ]

  create_loop-IsFirstStream :
      (left attempt hi delay : ℕ) (last : Option String)
      → attempt + left ≡ hi
      → IsFirstStream connect attempt hi pooled_failure
          (create_loop connect left attempt delay last).0
  unfolding create_loop describe
  create_loop-IsFirstStream zero attempt hi delay last e =
      inr ((λ m ml mh. absurd (omega arith)), last, refl)
  create_loop-IsFirstStream (suc left) attempt hi delay last e =
      elim (Answer-cases (connect attempt)) [
        | inl (s, c) ↦ inl (
          attempt,
          s,
          omega arith,
          omega arith,
          c,
          (λ m ml mh. absurd (omega arith)),
          ground (arith, c),
        )
        | inr (text, c) ↦
            one_more attempt hi pooled_failure _ (text, c)
              (rw (c, create_loop)
                (create_loop-IsFirstStream left (attempt + 1) hi _ (some text) (omega arith)))
      ]

  -- `create_connection` makes attempts until one succeeds, and `max_retries` of them at most: its
  -- answer is the stream of the first that succeeds, and an error if none does.
  pub create_connection-IsFirstStream :
      (config : PoolConfig)
      → IsFirstStream connect 0 config.max_retries pooled_failure
          (create_connection config connect).0
  unfolding create_connection
  create_connection-IsFirstStream config =
      create_loop-IsFirstStream config.max_retries 0 config.max_retries config.retry_delay none
        (omega arith)

  create_loop-sleeps :
      (limit left attempt delay : ℕ) (last : Option String)
      → delay ≤ limit
      → max_delay ≤ limit
      → All (λ d. d ≤ limit) (create_loop connect left attempt delay last).1
  unfolding create_loop
  create_loop-sleeps limit zero attempt delay last h k = tt
  create_loop-sleeps limit (suc left) attempt delay last h k =
      elim (Answer-cases (connect attempt)) [
        | inl (s, c) ↦ rw (c, create_loop) (slept-le attempt)
        | inr (text, c) ↦
            rw (c, create_loop)
              (All-append _ _ _ (slept-le attempt)
                (create_loop-sleeps limit left (attempt + 1) _ (some text) (next-le attempt) k))
      ]
    where
      slept-le : (n : ℕ) → All (λ d. d ≤ limit) (if n == 0 then [] else delay ∷ [])
      slept-le zero = tt
      slept-le (suc n) = ground arith

      next-le : (n : ℕ) → (if n == 0 then delay else min (delay * 2) max_delay) ≤ limit
      next-le n = ground arith

  -- The delays that `create_connection` sleeps are at most the larger of the configured delay and
  -- 200 ms.
  pub create_connection-sleeps :
      (config : PoolConfig)
      → All (λ d. d ≤ max config.retry_delay max_delay) (create_connection config connect).1
  unfolding create_connection
  create_connection-sleeps config =
      create_loop-sleeps (max config.retry_delay max_delay) config.max_retries 0 config.retry_delay
        none (omega arith) (omega arith)

  fresh_loop-IsFirstStream :
      (left attempt hi : ℕ) (last : Option String)
      → attempt + left ≡ hi
      → IsFirstStream connect attempt hi fresh_failure (fresh_loop connect left attempt last).0
  unfolding fresh_loop describe
  fresh_loop-IsFirstStream zero attempt hi last e =
      inr ((λ m ml mh. absurd (omega arith)), last, refl)
  fresh_loop-IsFirstStream (suc left) attempt hi last e = elim (Answer-cases (connect attempt)) [
    | inl (s, c) ↦ inl (
      attempt,
      s,
      omega arith,
      omega arith,
      c,
      (λ m ml mh. absurd (omega arith)),
      ground (arith, c),
    )
    | inr (text, c) ↦
        one_more attempt hi fresh_failure _ (text, c)
          (rw (c, fresh_loop)
            (fresh_loop-IsFirstStream left (attempt + 1) hi (some text) (omega arith)))
  ]

  -- `get_fresh_connection` does so with two attempts.
  pub get_fresh_connection-IsFirstStream :
      IsFirstStream connect 0 2 fresh_failure (get_fresh_connection connect).0
  unfolding get_fresh_connection
  get_fresh_connection-IsFirstStream = fresh_loop-IsFirstStream 2 0 2 none (omega arith)
