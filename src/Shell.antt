-- ===== src/Shell.antt =====
-- The shell service of the remote daemon, internal/remote/shell.go: what it does with the bytes of a
-- session's log, with keys and with names. Files are their bytes; tmux is not modelled.
pub mod Bytes
pub mod Markers
pub mod Keys
pub mod Search
pub mod Queries
pub mod Acks
pub mod Attach
pub mod Run
pub mod Stream
mod Tests
