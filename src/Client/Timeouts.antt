-- ===== src/Client/Timeouts.antt =====
-- src/ipc_http_client.rs, `send` and `calculate_smart_timeout`: how a timeout depends on the size of
-- a body.
use kode_bridge.Base.{ℕ, ◌≤◌, ◌≡◌, true, ◌||◌, none, some, refl, arith}
use text.Mathlib.Text.{◌==◌ as str_eq}
use kode_bridge.Client.Requests.{
  HttpRequestBuilder, timeout_for_size, calculate_smart_timeout, chosen_timeout, with_timeout,
  with_expected_size,
}

timeout_for_size_mono :
    (small large : ℕ)
    → small ≤ large
    → (2_000_000_000 ≤ timeout_for_size (some small))
      × (timeout_for_size (some small) ≤ timeout_for_size (some large))
      × (timeout_for_size (some large) ≤ 30_000_000_000)
unfolding timeout_for_size
timeout_for_size_mono small large h = ground arith

chosen_by_size :
    (default_timeout size : ℕ) (b : HttpRequestBuilder)
    → b.put_optimized ≡ true
    → (str_eq b.method "PUT" || str_eq b.method "POST") ≡ true
    → b.timeout ≡ none
    → chosen_timeout default_timeout (with_expected_size size b) ≡ timeout_for_size (some size)
unfolding chosen_timeout with_expected_size calculate_smart_timeout
chosen_by_size default_timeout size b optimized is_put unset =
    rw (chosen_timeout, unset, optimized, is_put) refl

-- An optimised PUT or POST request for which no timeout is set gets one between 2 and 30 seconds that
-- grows with the size it expects; a timeout that is set is the one it gets, whatever else is set.
pub chosen_timeout_bounds :
    (default_timeout small large timeout : ℕ) (b : HttpRequestBuilder)
    → b.put_optimized ≡ true
    → (str_eq b.method "PUT" || str_eq b.method "POST") ≡ true
    → b.timeout ≡ none
    → small ≤ large
    → (2_000_000_000 ≤ chosen_timeout default_timeout (with_expected_size small b))
      × (chosen_timeout default_timeout (with_expected_size small b)
          ≤ chosen_timeout default_timeout (with_expected_size large b))
      × (chosen_timeout default_timeout (with_expected_size large b) ≤ 30_000_000_000)
      × (chosen_timeout default_timeout (with_expected_size large (with_timeout timeout b))
          ≡ timeout)
chosen_timeout_bounds default_timeout small large timeout b optimized is_put unset le =
    let (lower, mono, upper) = timeout_for_size_mono small large le in
    let small_is = chosen_by_size default_timeout small b optimized is_put unset in
    let large_is = chosen_by_size default_timeout large b optimized is_put unset in
    (
      omega (arith, small_is),
      omega (arith, small_is, large_is),
      omega (arith, large_is),
      unfold chosen_timeout with_expected_size with_timeout in refl,
    )
