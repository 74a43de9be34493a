-- ===== src/Session.antt =====
-- The session store of the remote daemon, internal/remote/sessionstore/store.go.
pub mod Delimited
pub mod Defs
pub mod Writing
pub mod Recording
pub mod History
mod Tests
