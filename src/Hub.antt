-- ===== src/Hub.antt =====
-- The Bot-Relay hub, crates/atlas-bot-hub/src/lib.rs.
pub mod Types
pub mod Offbox
pub mod Events
pub mod Errors
pub mod Auth
pub mod After
pub mod Rpc
pub mod Session
pub mod Hints
mod Tests
