-- ===== src/Tcp.antt =====
-- server/tcp/: the TCP server.
pub mod Clients
pub mod Proxy
pub mod Handle
pub mod Server
pub mod Session
pub mod Totality
mod Examples
