-- ===== src/Udp.antt =====
-- server/udp: the server of datagrams and its sessions.
pub mod Session
pub mod Server
pub mod Stop
mod Examples
