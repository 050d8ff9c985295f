-- ===== src/Feed.antt =====
-- The gateway feed's stream (internal/server/feed).
pub mod Hub
pub mod Stream
mod Tests
