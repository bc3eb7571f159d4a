-- ===== src/Knowledge.antt =====
-- internal/knowledge: which host versions a Knowledge Pack covers.
pub mod Semver
pub mod Repository
pub mod Tests
