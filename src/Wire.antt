-- ===== src/Wire.antt =====
-- src/http_client.rs and src/codec.rs together: what one side writes, the other reads.
pub mod Requests
pub mod Responses
mod Tests
