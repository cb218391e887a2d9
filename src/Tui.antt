-- ===== src/Tui.antt =====
-- The list models of crates/pty-tui.
pub mod Scroll
mod Tests
