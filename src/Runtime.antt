-- ===== src/Runtime.antt =====
-- internal/runtime: how a compiled generation becomes the current one, and how the host goes back.
pub mod Activate
pub mod Confirmation
pub mod DiffChanges
pub mod Gate
pub mod Tests
