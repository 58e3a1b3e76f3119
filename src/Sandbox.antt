-- ===== src/Sandbox.antt =====
-- The sidecar that runs turns with tools in a workspace: crates/atlas-bot-gateway/src/box_sidecar.rs.
pub mod FilePaths
pub mod Resolve
pub mod Triggers
pub mod Below
pub mod Files
pub mod Boxes
pub mod Tools
pub mod Replies
pub mod Agents
pub mod Turns
pub mod Commands
pub mod Uploads
pub mod Dispatch
pub mod Start
mod Tests
