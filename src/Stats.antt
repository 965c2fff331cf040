-- ===== src/Stats.antt =====
-- stats/: the counters of traffic.
pub mod Counter
pub mod Rates
pub mod Backends
pub mod Handler
mod Examples
