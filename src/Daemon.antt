-- ===== src/Daemon.antt =====
-- The daemon of crates/pty/src/daemon: the budgets on what it holds for a child and for a client,
-- and its clients with the size that they share.
pub mod InputBudget
pub mod Outbound
pub mod Clients
mod Tests
