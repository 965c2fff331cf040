-- ===== src/Manager.antt =====
-- manager/manager.go: how configurations become servers.
pub mod Verdict
pub mod Healthcheck
pub mod Discovery
pub mod Prepare
pub mod Binds
pub mod Plan
pub mod Servers
pub mod Reload
pub mod Start
pub mod Sample
mod Examples
