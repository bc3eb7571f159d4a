-- ===== src/Hub/Pool.antt =====
-- internal/hub/pool.go: the slots of the subagents and the registry of workers.
pub mod Callers
pub mod Slots
pub mod Workers
pub mod Tests
