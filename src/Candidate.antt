-- ===== src/Candidate.antt =====
-- internal/candidate/normalize.go: the bodies of the hunks of a model's patch.
pub mod Hunks
pub mod Laws
pub mod Counts
pub mod Header
pub mod Normalize
mod Tests
