-- ===== src/Orchestrator/Laws.antt =====
-- internal/orchestrator: what is proved of a campaign.
pub mod Ledger
pub mod Frame
pub mod Cycle
pub mod Route
pub mod Total
pub mod Runs
pub mod Fuel
pub mod Results
pub mod Targets
pub mod Settle
pub mod Bounds
pub mod Outage
