-- ===== src/Client/Sending/Answers.antt =====
-- src/ipc_http_client.rs: what a caller gets from a request.
use kode_bridge.Base.{
  ℕ, ◌≤◌, ◌≡◌, ◌≢◌, refl, sym, ap, inl, inr, ◌∙◌, String, Bool, false, [], Option, none, some,
  if◌then◌else◌, Option-cases, arith,
}
use kode_bridge.Errors.{KodeBridgeError, custom, is_retriable, Result, ok, err, Result-cases}
use kode_bridge.Bytes.{Bytes}
use kode_bridge.Retry.{
  Floats, RetryConfig, Exit, Run, returned, panicked, out_of_fuel, with_context, calculate_delay,
}
use kode_bridge.Retry
use kode_bridge.Retry.Attempts.{execute-EndsAtFirstStop}
use kode_bridge.HttpClient.Request.{HeaderMaps, new_request, json}
use kode_bridge.Client.Connections.{Timed, in_time, too_late}
use kode_bridge.Client.Requests.{
  json_value, HttpRequestBuilder, prepare_request, wants_fresh, add_headers, add_body,
}
use kode_bridge.Client.Exchange.{round_result, send_rounds}
use kode_bridge.Client.Sending.{
  IpcHttpClient, executed, send_optimized, with_body, send_built, send_request_internal, request,
}

-- A request from the builder without headers and without the optimisation for PUT.
abbrev pub plain_request : String → Bytes → Option Bytes → HttpRequestBuilder
plain_request method path body = record {
  method = method;
  path = path;
  body = elim body [ none ↦ none | some value ↦ some (json_value value) ];
  timeout = none;
  headers = [];
  put_optimized = false;
  expected_size = none;
}

module _ (f : Floats) (h : HeaderMaps) (parse_method : String → Option Bytes)
    (invalid_method : String → String) {A : Type 0} (rounds : Bool → Bytes → ℕ → Timed (Result A))
    (duration : ℕ → ℕ) (draw : ℕ → ℕ → ℕ → ℕ) (describe : KodeBridgeError → String)
    (client : IpcHttpClient f) where
  -- The `request` of old callers is a request from the builder, without headers and without the
  -- optimisation for PUT, under the timeout of the client.
  pub request_is_plain :
      (method : String) (path : Bytes) (body : Option Bytes)
      → request f h parse_method invalid_method rounds duration draw describe client method path
          body
        ≡ send_optimized f h parse_method invalid_method rounds duration draw describe client
            (plain_request method path body)
            client.config.default_timeout
  unfolding request send_request_internal send_optimized send_built with_body prepare_request
      add_headers add_body send_rounds wants_fresh
  request_is_plain method path none = elim (Option-cases (parse_method method)) [
    | inl z ↦ rw (send_request_internal, send_optimized, prepare_request, z) refl
    | inr (m, e) ↦ rw (send_request_internal, send_optimized, prepare_request, e) refl
  ]
  request_is_plain method path (some value) = elim (Option-cases (parse_method method)) [
    | inl z ↦ rw (send_request_internal, send_optimized, prepare_request, z) refl
    | inr (m, e) ↦ elim (Option-cases (json h value (new_request h m path))) [
      | inl z ↦ rw (send_request_internal, send_optimized, prepare_request, e, z) refl
      | inr (r, j) ↦ rw (send_request_internal, send_optimized, prepare_request, e, j) refl
    ]
  ]

  -- What a caller gets: the value of a round, or an error that is not to be retried.
  abbrev pub IsAnswer : (ℕ → Timed (Result A)) → Result A → Type 0
  IsAnswer answers (ok v) = (n : ℕ) × (1 ≤ n) × (answers n ≡ in_time (ok v))
  IsAnswer answers (err e) = is_retriable e ≡ false

  in_time-round_result :
      (limit : ℕ) (answer : Timed (Result A)) (v : A)
      → round_result limit answer ≡ ok v
      → answer ≡ in_time (ok v)
  unfolding round_result
  in_time-round_result limit (in_time r) v e = ap in_time e
  in_time-round_result limit too_late v e = cc

  executed-IsAnswer :
      (config : RetryConfig (f.F64)) (limit : ℕ) (answers : ℕ → Timed (Result A))
      → ((s : Retry.RetryState) (n : ℕ) → calculate_delay f config s (draw n) ≢ none)
      → (answer : Result A) × (executed f h parse_method invalid_method rounds duration draw
            describe
            (Retry.execute f config (λ n. round_result limit (answers n)) duration draw)
          ≡ some answer)
        × IsAnswer answers answer
  unfolding executed with_context is_retriable
  executed-IsAnswer config limit answers safe =
      let (r, runs, ends) =
        execute-EndsAtFirstStop f config (λ n. round_result limit (answers n)) duration draw safe in
      elim (Result-cases r.result) [
        | inl (v, e) ↦ (
          ok v,
          rw (runs, e) refl,
          (
            r.state.attempt,
            omega (arith, ends.later),
            in_time-round_result limit (answers r.state.attempt) v (sym ends.answer ∙ e),
          ),
        )
        | inr (x, e) ↦ (err (custom (describe x)), rw (runs, e) refl, refl)
      ]

  prepare_request-fails :
      (b : HttpRequestBuilder) (e : KodeBridgeError)
      → prepare_request h parse_method invalid_method b ≡ err e
      → is_retriable e ≡ false
  unfolding prepare_request is_retriable
  prepare_request-fails b e q = elim (Option-cases (parse_method b.method)) [
    | inl z ↦ ground (arith, z)
    | inr (m, p) ↦
        elim (Option-cases (add_body h b.body (add_headers h b.headers (new_request h m b.path)))) [
          | inl z ↦ ground (arith, p, z)
          | inr (r, j) ↦ ground (arith, p, j)
        ]
  ]

  -- What a caller gets for a request: the value of a round with it, or an error that is not retried.
  abbrev pub IsGot : HttpRequestBuilder → Result A → Type 0
  IsGot b (ok v) =
      (sent : Bytes) × (n : ℕ) × (prepare_request h parse_method invalid_method b ≡ ok sent)
      × (1 ≤ n)
      × (rounds (wants_fresh b) sent n ≡ in_time (ok v))
  IsGot b (err e) = is_retriable e ≡ false

  got :
      (b : HttpRequestBuilder) (sent : Bytes) (answer : Result A)
      → prepare_request h parse_method invalid_method b ≡ ok sent
      → IsAnswer (rounds (wants_fresh b) sent) answer
      → IsGot b answer
  got b sent (ok v) p (n, l, e) = (sent, n, p, l, e)
  got b sent (err x) p i = i

  -- If no delay of its executors panics, a request ends with an answer, whatever its rounds come to.
  -- A success is what one of its rounds came to in time; an error is one that `is_retriable` refuses,
  -- also where the rounds failed with timeouts or refused connections.
  pub send_optimized-IsGot :
      (b : HttpRequestBuilder) (limit : ℕ)
      → ((s : Retry.RetryState) (n : ℕ)
          → calculate_delay f
              (if b.put_optimized then client.put_retry_config else client.retry_config)
              s
              (draw n)
            ≢ none)
      → (answer : Result A) × (send_optimized f h parse_method invalid_method rounds duration draw
            describe client b limit
          ≡ some answer)
        × IsGot b answer
  unfolding send_optimized send_rounds
  send_optimized-IsGot b limit safe =
      elim (Result-cases (prepare_request h parse_method invalid_method b)) [
        | inr (e, p) ↦ (err e, rw (send_optimized, p) refl, prepare_request-fails b e p)
        | inl (sent, p) ↦
            let config = if b.put_optimized then client.put_retry_config else client.retry_config in
            let (answer, q, i) =
              executed-IsAnswer config limit (rounds (wants_fresh b) sent) safe in
            (answer, rw (send_optimized, p) q, got b sent answer p i)
      ]
