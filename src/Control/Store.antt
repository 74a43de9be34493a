-- ===== src/Control/Store.antt =====
-- internal/control/store/store.go: jobs, logs and log subscribers, under one mutex. Each method
-- is one atomic step on `Store`.
pub mod Channels
mod Refs
pub mod Sending
pub mod Sound
pub mod Safety
pub mod Runs
pub mod Numbering
pub mod Appending
pub mod Counting
pub mod Defs
