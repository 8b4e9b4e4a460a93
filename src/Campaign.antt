-- ===== src/Campaign.antt =====
-- internal/campaign: the wait for a quiet machine, the tests on pairs of measurements, the history of
-- earlier campaigns, and the acceptance policy of a target.
pub mod Quiet
pub mod Paired
pub mod Columns
pub mod History
pub mod Settle
pub mod Acceptance
pub mod Laws
mod Tests
