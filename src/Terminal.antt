-- ===== src/Terminal.antt =====
-- crates/pty-terminal/src/strip.rs and actor.rs: the scanner over the child's output, and what of it
-- is handed on to the clients.
pub mod Csi
pub mod Osc
pub mod Scanner
pub mod Broadcast
mod Tests
