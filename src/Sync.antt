-- ===== src/Sync.antt =====
-- The scripts of platform/13-openmetadata-config that carry data between services.
pub mod Policy
pub mod Users
mod Tests
