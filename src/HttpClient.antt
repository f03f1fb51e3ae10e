-- ===== src/HttpClient.antt =====
-- src/http_client.rs: `RequestBuilder`, `parse_response` and the readers of a body.
pub mod Reader
pub mod Response
pub mod Request
pub mod Sending
pub mod Termination
pub mod Chunks
pub mod ChunkedBody
pub mod Adaptive
pub mod Body
pub mod Accessors
pub mod Sample
mod Tests
