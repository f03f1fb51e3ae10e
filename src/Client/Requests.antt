-- ===== src/Client/Requests.antt =====
-- src/ipc_http_client.rs: `HttpRequestBuilder`, the timeout of a request and the request it becomes.
-- A JSON value is its text. Durations are numbers of nanoseconds.
use Prim.Native.String.{◌++◌ as append}
use text.Mathlib.Text.{◌==◌ as str_eq}
use kode_bridge.Base.{
  ℕ, ◌*◌, String, Bool, true, false, ◌||◌, Option, none, some, List, [], ◌∷◌, ◌++◌, length, ltb,
  if◌then◌else◌,
}
use kode_bridge.Errors.{http, invalid_request, Result, ok, err}
use kode_bridge.Bytes.{Bytes, bytes}
use kode_bridge.HttpClient.Request.{
  HeaderMaps, RequestBuilder, new_request, header, body_bytes, json, build,
}

abbrev seconds : ℕ → ℕ
seconds n = n * 1_000_000_000

pub data RequestBody : Type 0 where
  json_value json_bytes : Bytes → RequestBody

pub record HttpRequestBuilder : Type 0 where
  pub method : String
  pub path : Bytes
  pub body : Option RequestBody
  pub timeout : Option ℕ
  pub headers : List (Bytes × Bytes)
  pub put_optimized : Bool
  pub expected_size : Option ℕ

unfoldable pub new_http_request : String → Bytes → HttpRequestBuilder
new_http_request method path = record {
  method = method;
  path = path;
  body = none;
  timeout = none;
  headers = [];
  put_optimized = str_eq method "PUT";
  expected_size = none;
}

unfoldable pub with_json_body : Bytes → HttpRequestBuilder → HttpRequestBuilder
with_json_body text b = record b { body = some (json_value text) }

unfoldable pub with_json_bytes : Bytes → HttpRequestBuilder → HttpRequestBuilder
with_json_bytes text b = record b {
  expected_size = some (length text);
  body = some (json_bytes text);
}

unfoldable pub with_timeout : ℕ → HttpRequestBuilder → HttpRequestBuilder
with_timeout timeout b = record b { timeout = some timeout }

unfoldable pub with_expected_size : ℕ → HttpRequestBuilder → HttpRequestBuilder
with_expected_size size b = record b { expected_size = some size }

unfoldable pub optimize_for_put : HttpRequestBuilder → HttpRequestBuilder
optimize_for_put b = record b { put_optimized = true }

unfoldable pub with_request_header : Bytes → Bytes → HttpRequestBuilder → HttpRequestBuilder
with_request_header key value b = record b { headers = b.headers ++ (key, value) ∷ [] }

unfoldable pub timeout_for_size : Option ℕ → ℕ
timeout_for_size none = seconds 2
timeout_for_size (some size) =
    if ltb (5 * 1024 * 1024) size
    then seconds 30
    else if ltb (1024 * 1024) size
    then seconds 15
    else if ltb (100 * 1024) size
    then seconds 8
    else if ltb (10 * 1024) size
    then seconds 4
    else seconds 2

unfoldable pub calculate_smart_timeout : ℕ → String → Option ℕ → ℕ
calculate_smart_timeout default_timeout method body_size =
    if str_eq method "PUT" || str_eq method "POST"
    then timeout_for_size body_size
    else default_timeout

-- The timeout that `send` chooses.
unfoldable pub chosen_timeout : ℕ → HttpRequestBuilder → ℕ
chosen_timeout default_timeout b = elim b.timeout [
  | some timeout ↦ timeout
  | none ↦
      if b.put_optimized
      then calculate_smart_timeout default_timeout b.method b.expected_size
      else default_timeout
]

-- A large optimised request asks for a fresh connection.
unfoldable pub wants_fresh : HttpRequestBuilder → Bool
wants_fresh b =
    if b.put_optimized
    then elim b.expected_size [ none ↦ false | some size ↦ ltb 10240 size ]
    else false

module _ (h : HeaderMaps) where
  unfoldable pub add_headers : List (Bytes × Bytes) → RequestBuilder h → RequestBuilder h
  add_headers [] r = r
  add_headers ((key, value) ∷ rest) r = add_headers rest (header h key value r)

  unfoldable pub add_body : Option RequestBody → RequestBuilder h → Option (RequestBuilder h)
  add_body none r = some r
  add_body (some (json_value text)) r = json h text r
  add_body (some (json_bytes text)) r = body_bytes h text (bytes "application/json") r

  -- `parse_method` gives the text of a valid method; the others have the text of their error.
  unfoldable pub prepare_request :
      (String → Option Bytes) → (String → String) → HttpRequestBuilder → Result Bytes
  prepare_request parse_method invalid_method b = elim (parse_method b.method) [
    | none ↦ err (invalid_request (append "Invalid method: " (invalid_method b.method)))
    | some method ↦ elim (add_body b.body (add_headers b.headers (new_request h method b.path))) [
      | none ↦ err (http "failed to parse header value")
      | some r ↦ ok (build h r)
    ]
  ]
