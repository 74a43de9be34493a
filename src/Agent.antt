-- ===== src/Agent.antt =====
-- The agent sessions of the remote daemon, internal/remote/session_service.go: subscribers, tools and
-- the conversation with a language model.
pub mod Buffer
pub mod Bundle
pub mod Events
pub mod Exec
pub mod Chat
pub mod Config
pub mod Edit
pub mod Gemini
pub mod Hub
pub mod Last
pub mod Openai
pub mod Os
pub mod Paths
mod Tests
pub mod Sessions
pub mod Tools
