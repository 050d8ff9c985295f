-- ===== src/Notify.antt =====
-- Outbound notifications (internal/server/notify).
pub mod Worker
pub mod Policy
mod Tests
