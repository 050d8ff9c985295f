-- ===== src/Auth.antt =====
-- Authentication of requests (internal/auth).
pub mod Timestamp
pub mod Verifier
pub mod Session
mod Tests
