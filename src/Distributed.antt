-- ===== src/Distributed.antt =====
-- pa2/src/distributed_stateops.rs: which server answers for a user or a channel.
pub mod Owners
pub mod Startup
pub mod Wire
pub mod Run
pub mod Forward
pub mod Operations
pub mod Requests
pub mod Retry
pub mod Calls
pub mod Remote
pub mod Changes
pub mod Replicas
pub mod Merge
pub mod Endpoints
pub mod Dispatch
pub mod Repeats
pub mod Failures
pub mod Returning
