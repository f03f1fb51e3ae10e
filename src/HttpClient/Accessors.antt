-- ===== src/HttpClient/Accessors.antt =====
-- src/http_client.rs, the readers of a `Response`, and src/response.rs, the response for old callers.
-- Text and JSON are parameters, as are the classes of a status.
pub mod Length
use kode_bridge.Base.{
  ℕ, zero, suc, ◌+◌, ◌-◌, ◌*◌, ◌≤◌, ◌<◌, ◌≡◌, ◌≢◌, ◌↔◌, ◌⊎◌, refl, sym, ap, subst, inl, inr, ◌∙◌,
  String, Bool, true, false, not, ◌&&◌, ◌||◌, ltb, leb, ◌==◌, List, [], ◌∷◌, ◌++◌, All, length,
  take, drop, drop-length, length-append, Option, none, some, if◌then◌else◌, Bool-cases,
  Option-cases, arith, max, min,
}
use kode_bridge.Errors.{KodeBridgeError, from_utf8, json, Result, ok, err}
use kode_bridge.Bytes.{Bytes, bytes, parse_usize}
use kode_bridge.HttpClient.Response.{Crates, Response}

-- The crates serde_json and http, and the standard library's UTF-8. A header map gives its headers in
-- its order of iteration; a JSON object is made of names and texts.
pub record Texts (c : Crates) : Type 1 where
  pub Value : Type 0
  pub is_utf8 : Bytes → Bool
  pub from_utf8_lossy : Bytes → Bytes
  pub from_json : Bytes → Option Value
  pub json_error : Bytes → String
  pub object : List (Bytes × Bytes) → Value
  pub iter : c.HeaderMap → List (Bytes × c.HeaderValue)
  pub same_name : Bytes → Bytes → Bool
  pub is_success : ℕ → Bool
  pub is_client_error : ℕ → Bool
  pub is_server_error : ℕ → Bool
  pub is_redirection : ℕ → Bool

module _ (c : Crates) (t : Texts c) where
  open t use {Value}

  unfoldable text : Response c → Result Bytes
  text r = if t.is_utf8 r.body then ok r.body else err (from_utf8 "invalid utf-8 sequence")

  unfoldable json_value : Response c → Result Value
  json_value r = elim (t.from_json r.body) [
    | none ↦ err (KodeBridgeError.json (t.json_error r.body))
    | some value ↦ ok value
  ]

  unfoldable is_success : Response c → Bool
  is_success r = t.is_success r.status

  unfoldable is_client_error : Response c → Bool
  is_client_error r = t.is_client_error r.status

  unfoldable is_server_error : Response c → Bool
  is_server_error r = t.is_server_error r.status

  unfoldable is_redirection : Response c → Bool
  is_redirection r = t.is_redirection r.status

  -- `parse::<u64>` takes what `parse::<usize>` does.
  unfoldable pub parse_length : Option Bytes → Option ℕ
  parse_length none = none
  parse_length (some text) = parse_usize text

  -- `Response::content_length`.
  unfoldable pub reported_length : Response c → Option ℕ
  reported_length r = elim (c.get r.headers (bytes "content-length")) [
    | none ↦ none
    | some value ↦ parse_length (c.to_str value)
  ]

  unfoldable content_type : Response c → Option Bytes
  content_type r = elim (c.get r.headers (bytes "content-type")) [
    | none ↦ none
    | some value ↦ c.to_str value
  ]

  unfoldable text_or_empty : Option Bytes → Bytes
  text_or_empty none = []
  text_or_empty (some text) = text

  -- A hash map keeps the last value of a name.
  unfoldable put_text : Bytes → Bytes → List (Bytes × Bytes) → List (Bytes × Bytes)
  put_text name value [] = (name, value) ∷ []
  put_text name value (entry ∷ entries) =
      let rest = put_text name value entries in
      if t.same_name entry.0 name then (name, value) ∷ entries else entry ∷ rest

  unfoldable collect : List (Bytes × Bytes) → List (Bytes × c.HeaderValue) → List (Bytes × Bytes)
  collect map [] = map
  collect map ((name, value) ∷ rest) =
      collect (put_text name (text_or_empty (c.to_str value)) map) rest

  record LegacyResponse : Type 0 where
    pub status : ℕ
    pub headers : Value
    pub body : Bytes

  unfoldable to_legacy : Response c → LegacyResponse
  to_legacy r = record {
    status = r.status;
    headers = t.object (collect [] (t.iter r.headers));
    body = t.from_utf8_lossy r.body;
  }

  -- `LegacyResponse::json`.
  unfoldable legacy_json : LegacyResponse → Result Value
  legacy_json r = elim (t.from_json r.body) [
    | none ↦ err (KodeBridgeError.json (t.json_error r.body))
    | some value ↦ ok value
  ]

  -- `HttpResponse::content_length` of src/ipc_http_client.rs.
  unfoldable length_or_zero : Response c → ℕ
  length_or_zero r = elim (reported_length r) [ none ↦ 0 | some n ↦ n ]

  -- `HttpResponse::headers` of src/ipc_http_client.rs.
  unfoldable headers_value : Response c → Value
  headers_value r = t.object (collect [] (t.iter r.headers))
