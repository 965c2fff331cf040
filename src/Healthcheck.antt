-- ===== src/Healthcheck.antt =====
-- healthcheck/healthcheck.go and healthcheck/worker.go.
pub mod Types
pub mod Worker
pub mod Workers
pub mod Probe
mod Examples
