-- ===== src/Client/Attempts.antt =====
-- src/ipc_http_client.rs, `create_direct_connection`: which attempt gives its answer.
use kode_bridge.Base.{
  ℕ, zero, suc, ◌+◌, ◌-◌, ◌≤◌, ◌≡◌, refl, inl, inr, Option, none, some, String, [], ◌∷◌, All,
  length, length-append, All-append, arith, ◌==◌, if◌then◌else◌,
}
use kode_bridge.Errors.{Result}
use kode_bridge.Pool.Connect.{Answer, IsFirstStream, Answer-cases, one_more}
use kode_bridge.Client.Connections.{direct_failure, direct_loop, create_direct_connection}

module _ (connect : ℕ → Answer) (failed : Option String → Result ℕ) (retry_delay : ℕ) where
  pub direct_loop-IsFirstStream :
      (left attempt hi : ℕ) (last : Option String)
      → attempt + left ≡ hi
      → IsFirstStream connect attempt hi failed
          (direct_loop connect failed retry_delay left attempt last).0
  unfolding direct_loop
  direct_loop-IsFirstStream zero attempt hi last e =
      inr ((λ m ml mh. absurd (omega arith)), last, refl)
  direct_loop-IsFirstStream (suc left) attempt hi last e = elim (Answer-cases (connect attempt)) [
    | inl (s, c) ↦ inl (
      attempt,
      s,
      omega arith,
      omega arith,
      c,
      (λ m ml mh. absurd (omega arith)),
      ground (arith, c),
    )
    | inr (text, c) ↦
        one_more connect attempt hi failed _ (text, c)
          (rw (c, direct_loop)
            (direct_loop-IsFirstStream left (attempt + 1) hi (some text) (omega arith)))
  ]

  slept_before :
      (attempt : ℕ)
      → let slept = if attempt == 0 then [] else retry_delay ∷ [] in
        All (λ d. d ≡ retry_delay) slept × (length slept ≡ 1 - (1 - attempt))
  slept_before zero = (tt, refl)
  slept_before (suc n) = (ground arith, ground arith)

  -- Only the configured delay is slept, and only before an attempt that is not the first.
  pub direct_loop-sleeps :
      (left attempt : ℕ) (last : Option String)
      → let slept = (direct_loop connect failed retry_delay left attempt last).1 in
        All (λ d. d ≡ retry_delay) slept × (length slept ≤ left - (1 - attempt))
  unfolding direct_loop
  direct_loop-sleeps zero attempt last = (tt, omega arith)
  direct_loop-sleeps (suc left) attempt last =
      let (same, count) = slept_before attempt in
      elim (Answer-cases (connect attempt)) [
        | inl (s, c) ↦ rw (c, direct_loop) ((same, omega (arith, count)))
        | inr (text, c) ↦
            let (later, later_count) = direct_loop-sleeps left (attempt + 1) (some text) in
            rw (c, direct_loop)
              ((
                All-append _ _ _ same later,
                omega (
                  arith,
                  count,
                  later_count,
                  length-append (if attempt == 0 then [] else retry_delay ∷ [])
                      (direct_loop connect failed retry_delay left (attempt + 1) (some text)).1,
                ),
              ))
      ]

-- The direct connection of a client is that of the first attempt that succeeds among `max_retries`,
-- and an error only if all of them failed; between two attempts the configured delay is slept.
pub create_direct_connection-IsFirstStream :
    (display : ℕ → String) (max_retries retry_delay : ℕ) (connect : ℕ → Answer)
    → let (answer, slept) = create_direct_connection display max_retries retry_delay connect in
      IsFirstStream connect 0 max_retries (direct_failure display max_retries) answer
      × All (λ d. d ≡ retry_delay) slept
      × (length slept ≤ max_retries - 1)
unfolding create_direct_connection
create_direct_connection-IsFirstStream display max_retries retry_delay connect =
    let failed = direct_failure display max_retries in
    let (same, count) = direct_loop-sleeps connect failed retry_delay max_retries 0 none in
    (
      direct_loop-IsFirstStream connect failed retry_delay max_retries 0 max_retries none
          (omega arith),
      same,
      omega (arith, count),
    )
