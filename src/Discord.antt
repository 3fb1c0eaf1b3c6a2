-- ===== src/Discord.antt =====
-- pa2/src/discord_stateops.rs: the state of one server and its operations. The proofs are in the
-- modules below.
mod Types
mod Messages
mod Operations
pub mod Numbering
pub mod Order
pub mod Insertion
pub mod Invariant
pub mod Users
pub mod Members
pub mod Joining
pub mod Leaving
pub mod Sending
pub mod Sends
pub mod Reading
pub mod Replication
pub mod Interleaving
unfoldable pub use Types.*
unfoldable pub use Messages.*
unfoldable pub use Operations.*
