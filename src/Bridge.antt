-- ===== src/Bridge.antt =====
-- The access bridge between OpenMetadata and Keycloak (platform/18-om-access-bridge/app/app.py).
pub mod Signature
pub mod Grant
pub mod World
pub mod Keycloak
pub mod OpenMetadata
pub mod Endpoints
mod Tests
