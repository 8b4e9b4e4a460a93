-- ===== src/Campaign/Laws.antt =====
-- internal/campaign: what the parts of a campaign promise.
pub mod Quiet
pub mod Passes
pub mod SignedRank
pub mod Columns
pub mod Acceptance
pub mod History
pub mod Settle
