-- ===== src/Assurance.antt =====
-- internal/assurance: how strong the evidence for a conclusion may be said to be.
pub mod Ceilings
pub mod Verify
pub mod Evidence
pub mod Tests
