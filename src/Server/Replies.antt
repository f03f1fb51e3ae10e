-- ===== src/Server/Replies.antt =====
-- src/ipc_http_server.rs: `ResponseBuilder` and the replies of the server itself. The types of the
-- `http` crate are those of the codec; a status is its number, and a JSON text is given.
use kode_bridge.Base.{ℕ, Option, none, some, []}
use kode_bridge.Bytes.{Bytes, bytes}
use kode_bridge.Codec.{Http, HttpResponse}

module _ (h : Http) where
  open h use {HeaderMap, parse_name, parse_value, empty, insert}

  pub record ResponseBuilder : Type 0 where
    pub status : ℕ
    pub headers : HeaderMap
    pub body : Option Bytes

  unfoldable pub new_builder : ResponseBuilder
  new_builder = record { status = 200; headers = empty; body = none }

  unfoldable pub with_status : ℕ → ResponseBuilder → ResponseBuilder
  with_status status b = record b { status = status }

  -- A name or value that is not valid is left out.
  unfoldable pub with_header : Bytes → Bytes → ResponseBuilder → ResponseBuilder
  with_header key value b = elim (parse_name key) [
    | none ↦ b
    | some k ↦ elim (parse_value value) [
      | none ↦ b
      | some v ↦ record b { headers = insert b.headers k v }
    ]
  ]

  unfoldable pub with_body : Bytes → ResponseBuilder → ResponseBuilder
  with_body body b = record b { body = some body }

  unfoldable pub json_reply : Bytes → ResponseBuilder → ResponseBuilder
  json_reply json_bytes b =
      with_body json_bytes (with_header (bytes "content-type") (bytes "application/json") b)

  unfoldable pub text_reply : Bytes → ResponseBuilder → ResponseBuilder
  unfolding with_body with_header
  text_reply text b =
      with_body text (with_header (bytes "content-type") (bytes "text/plain; charset=utf-8") b)

  unfoldable pub build_reply : ResponseBuilder → HttpResponse h
  build_reply b = record {
    status = b.status;
    headers = b.headers;
    body = elim b.body [ none ↦ [] | some body ↦ body ];
  }

  unfoldable pub error_reply : ℕ → Bytes → HttpResponse h
  unfolding build_reply text_reply with_status new_builder
  error_reply status message = build_reply (text_reply message (with_status status new_builder))

  unfoldable pub not_found : HttpResponse h
  unfolding error_reply
  not_found = error_reply 404 (bytes "Not Found")

  unfoldable pub internal_error : HttpResponse h
  unfolding error_reply
  internal_error = error_reply 500 (bytes "Internal Server Error")
