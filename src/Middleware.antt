-- ===== src/Middleware.antt =====
-- pa2/src/server_middleware.rs: the connections to the other servers.
pub mod Election
pub mod Heartbeat
pub mod Peer
