-- ===== src/Portal.antt =====
-- portal/scripts/portal-backend.py: who asks, and what the portal keeps for each user.
pub mod Store
pub mod Owners
pub mod Search
pub mod Favorites
pub mod Events
pub mod Embed
pub mod Reports
mod Tests
