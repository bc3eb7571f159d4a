-- ===== src/Resolve.antt =====
-- internal/resolve: the desired state of one host, resolved from profiles, activation and exceptions.
pub mod Types
pub mod Candidates
pub mod Waiver
pub mod Layer
pub mod Decide
pub mod Run
pub mod Tests
