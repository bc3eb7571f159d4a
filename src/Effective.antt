-- ===== src/Effective.antt =====
-- internal/effective: the configuration that a host is expected to load, merged from its sources.
pub mod Types
pub mod Sources
pub mod DeepMerge
pub mod Operators
pub mod Compose
pub mod Group
pub mod Identity
pub mod Graph
pub mod Tests
