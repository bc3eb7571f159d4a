-- ===== src/Profiles.antt =====
-- internal/profiles: which profiles a worktree selects.
pub mod Glob
pub mod Binding
pub mod Identity
pub mod Compose
pub mod Tests
