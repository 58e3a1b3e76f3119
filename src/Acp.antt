-- ===== src/Acp.antt =====
-- The adapter between clients of an agent client protocol and the hub: crates/atlas-acp-adapter/src/lib.rs.
pub mod Replies
pub mod Session
mod Tests
