-- ===== src/Control.antt =====
-- The control plane: internal/control, and the messages of proto/xrunner/v1 that it exchanges.
pub mod Types
pub mod Store
pub mod Mirror
pub mod JobSvc
mod Tests
