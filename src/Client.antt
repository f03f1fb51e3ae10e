-- ===== src/Client.antt =====
-- src/ipc_http_client.rs: how a request gets a connection, how it is sent and counted, and batches.
pub mod Connections
pub mod Requests
pub mod Exchange
pub mod Batch
pub mod Sending
pub mod Attempts
pub mod Counting
pub mod Timeouts
pub mod Reuse
pub mod Batches
mod Tests
