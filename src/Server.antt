-- ===== src/Server.antt =====
-- The background work of the server (internal/server).
pub mod Fanout
pub mod Notices
pub mod Sweep
pub mod Pruner
mod Tests
