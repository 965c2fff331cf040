-- ===== src/Discovery/Fetch.antt =====
-- discovery/static.go, exec.go, plaintext.go and lxd.go: what a fetch makes of the answer of its service.
pub mod Lines
pub mod Panics
pub mod Lxd
