-- ===== src/Cli.antt =====
-- The gateway to an agent's command line: crates/atlas-bot-gateway/src/cli_gateway.rs.
pub mod Spawn
pub mod Lines
pub mod Reply
pub mod Stream
pub mod Agents
pub mod Children
pub mod Turns
mod Tests
