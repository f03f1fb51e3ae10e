-- ===== src/HttpClient/Request.antt =====
-- src/http_client.rs: `RequestBuilder`. The header map of the `http` crate is a parameter; a body is
-- its bytes, and the JSON text of a value is given.
use kode_bridge.Base.{Option, none, some, List, [], ◌++◌, length}
use kode_bridge.Bytes.{Bytes, bytes, crlf, to_decimal}
use kode_bridge.Codec.{RawHeader, encode_headers}

-- What the builder uses of `http`: a conversion fails for a name or value that is not valid.
pub record HeaderMaps : Type 1 where
  pub HeaderMap : Type 0
  pub HeaderName : Type 0
  pub HeaderValue : Type 0
  pub name_from_bytes : Bytes → Option HeaderName
  pub value_from_str : Bytes → Option HeaderValue
  pub from_static : Bytes → HeaderValue
  pub host : HeaderName
  pub user_agent : HeaderName
  pub content_type : HeaderName
  pub content_length : HeaderName
  pub empty : HeaderMap
  pub insert : HeaderMap → HeaderName → HeaderValue → HeaderMap
  pub iter : HeaderMap → List RawHeader

module _ (h : HeaderMaps) where
  open h use {HeaderMap, name_from_bytes, value_from_str, from_static, empty, insert}

  pub record RequestBuilder : Type 0 where
    pub method : Bytes
    pub uri : Bytes
    pub headers : HeaderMap
    pub body : Option Bytes

  unfoldable pub new_request : Bytes → Bytes → RequestBuilder
  new_request method uri =
      let with_host = insert empty h.host (from_static (bytes "localhost")) in
      record {
        method = method;
        uri = uri;
        headers = insert with_host h.user_agent (from_static (bytes "kode-bridge/0.1"));
        body = none;
      }

  -- A header that is not valid is left out.
  unfoldable pub header : Bytes → Bytes → RequestBuilder → RequestBuilder
  header key value b = elim (name_from_bytes key) [
    | none ↦ b
    | some name ↦ elim (value_from_str value) [
      | none ↦ b
      | some val ↦ record b { headers = insert b.headers name val }
    ]
  ]

  -- None where the length is no valid value.
  unfoldable pub body_bytes : Bytes → Bytes → RequestBuilder → Option RequestBuilder
  body_bytes body content_type b =
      let typed = insert b.headers h.content_type (from_static content_type) in
      elim (value_from_str (to_decimal (length body))) [
        | none ↦ none
        | some len ↦
            some (record b { headers = insert typed h.content_length len; body = some body })
      ]

  unfoldable pub json : Bytes → RequestBuilder → Option RequestBuilder
  json text b = body_bytes text (bytes "application/json") b

  abbrev pub body_of : RequestBuilder → Bytes
  body_of b = elim b.body [ none ↦ [] | some body ↦ body ]

  unfoldable pub build : RequestBuilder → Bytes
  build b =
      b.method
      ++ (bytes " "
          ++ (b.uri
              ++ (bytes " HTTP/1.1"
                  ++ (crlf ++ (encode_headers (h.iter b.headers) ++ (crlf ++ body_of b))))))
