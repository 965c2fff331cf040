-- ===== src/Balance.antt =====
-- core/balancer.go, core/context.go: what every balancer shares, and the six strategies, the two
-- middlewares and the registry of balance/ in the modules below.
pub mod Types
pub mod Scan
pub mod Leastconn
pub mod Weight
pub mod Roundrobin
pub mod Fnv
pub mod Iphash
pub mod Members
pub mod Middleware
pub mod Registry
mod Examples
