-- ===== src/Domain.antt =====
-- internal/domain: the documents that the other components read, and their validation.
pub mod Levels
pub mod Host
pub mod Documents
pub mod Validate
pub mod Tests
