-- ===== src/Chat.antt =====
-- pa1/server/src: the single chat server.
mod Types
mod Operations
pub mod Index
pub mod Users
pub mod Changes
pub mod Departure
pub mod History
pub mod Runs
pub mod Commands
pub mod Connections
pub mod Lines
pub mod Sockets
pub mod Reads
pub mod Endpoints
pub mod Serving
unfoldable pub use Types.*
unfoldable pub use Operations.*
