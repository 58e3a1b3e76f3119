-- ===== src/Gateway.antt =====
-- The in-memory gateway of crates/atlas-bot-gateway/src/lib.rs: the agents, their transcripts and
-- turns, groups, channels and attachments, and the dispatch of the commands to them.
pub mod Types
pub mod Groups
pub mod Channels
pub mod Turns
pub mod Tail
pub mod Uploads
pub mod Dispatch
pub mod Invariant
mod Tests
