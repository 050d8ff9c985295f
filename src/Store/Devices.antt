-- ===== src/Store/Devices.antt =====
-- The devices table (internal/store/devices.go).
pub mod Rows
pub mod Lists
pub mod Writes
pub mod Expiry
