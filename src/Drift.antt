-- ===== src/Drift.antt =====
-- internal/drift: the classification of differences and their groups.
pub mod Types
pub mod Classify
pub mod Samples
pub mod Group
pub mod Tests
