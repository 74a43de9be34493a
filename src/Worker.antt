-- ===== src/Worker.antt =====
-- The worker agent: internal/worker. The operating system is behind `Host`.
pub mod Docker
pub mod Sandbox
pub mod Collect
pub mod Runner
pub mod Server
mod Tests
