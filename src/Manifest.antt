-- ===== src/Manifest.antt =====
-- internal/manifest: the performance block of a target's manifest, and what a campaign may trade off.
pub mod Types
pub mod Tradeoff
pub mod Validate
pub mod Laws
mod Tests
