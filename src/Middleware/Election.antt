-- ===== src/Middleware/Election.antt =====
-- The choice of the leader: `SystemState::new`, and one round of `leader_announcement_task`.
mod Rounds
mod Sorting
pub mod Agreement
unfoldable pub use Rounds.*
unfoldable pub use Sorting.*
