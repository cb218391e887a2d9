-- ===== src/Process.antt =====
-- The process table of crates/pty-core/src/proctable.rs and the trees that
-- crates/pty-core/src/process_tree.rs reads from it and stops.
pub mod Table
pub mod Walk
pub mod Snapshot
pub mod Freeze
pub mod Sweep
mod Tests
