-- ===== src/Server.antt =====
-- src/ipc_http_server.rs: the router, the replies, the loop of a connection and the accept loop.
pub mod Router
pub mod Replies
pub mod Connection
pub mod Accept
pub mod Drain
mod Tests
