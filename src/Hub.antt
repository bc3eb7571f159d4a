-- ===== src/Hub.antt =====
-- internal/hub: the guards on runaway steps, the pool of workers and the tools that they share.
pub mod Pool
pub mod Repair
pub mod Watchdog
pub mod Tool
pub mod Tests
