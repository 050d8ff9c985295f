-- ===== src/Stale.antt =====
-- The staleness policy of the gateway feed (internal/server/stale).
pub mod Window
mod Tests
