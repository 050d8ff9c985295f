-- ===== src/Store.antt =====
-- The persistence layer (internal/store) over its tables.
pub mod Schema
pub mod Order
pub mod Db
pub mod Users
pub mod Tokens
pub mod Keys
pub mod Sessions
pub mod Codes
pub mod Recovery
pub mod Audit
pub mod Devices
pub mod Nonces
pub mod Feed
pub mod Notifications
pub mod History
pub mod Checkin
pub mod Samples
