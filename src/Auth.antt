-- ===== src/Auth.antt =====
-- internal/auth: which credentials a generation may use, and which native state it may share.
pub mod State
pub mod Paths
pub mod Allowlist
pub mod Fallback
pub mod Tests
