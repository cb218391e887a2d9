-- ===== src/Operation.antt =====
-- Launch operations: the durable record, its writers, and the verdicts on it.
mod Tests
pub mod Liveness
pub mod Record
pub mod Launcher
pub mod Occupancy
pub mod Settle
pub mod Retire
pub mod Store
