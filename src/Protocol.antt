-- ===== src/Protocol.antt =====
-- crates/pty-core/src/protocol.rs: the wire protocol between the clients and a session's daemon.
pub mod Message
pub mod Encode
pub mod Reader
mod Tests
