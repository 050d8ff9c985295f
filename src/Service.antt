-- ===== src/Service.antt =====
-- The services (internal/server/service).
pub mod Checkin
pub mod Credentials
pub mod Tokens
pub mod Keys
pub mod Membership
pub mod Devices
pub mod Admin
pub mod Enrollment
mod Tests
