-- ===== src/StreamClient.antt =====
-- src/stream_client.rs and src/ipc_stream_client.rs: a response whose body is read line by line.
pub mod Head
pub mod Lines
pub mod Requests
pub mod Boundary
pub mod Response
pub mod Cutoff
mod Tests
