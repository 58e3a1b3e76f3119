-- ===== src/Gateway/Types.antt =====
-- The data of crates/atlas-bot-gateway/src/lib.rs, and handlers as actions on its state.
mod Records
mod Actions
mod Start
mod Endings
unfoldable pub use Records.*
unfoldable pub use Actions.*
unfoldable pub use Start.*
unfoldable pub use Endings.*
