-- ===== src/StreamServer.antt =====
-- src/ipc_stream_server.rs: messages, the task of a data source, and the task of a client.
pub mod Messages
pub mod Source
pub mod Delivery
pub mod Broadcast
pub mod Failure
pub mod Order
pub mod Registry
mod Tests
