-- ===== src/Utils.antt =====
-- utils/: what several components use.
pub mod Time
pub mod Sources
mod Examples
