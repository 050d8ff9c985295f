-- ===== src/Client.antt =====
-- The client agent (internal/client).
pub mod Discovery
pub mod Poller
mod Tests
