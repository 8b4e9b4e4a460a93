-- ===== src/Orchestrator.antt =====
-- internal/orchestrator: the bounded campaign graph, from the ledger of verdicts to the loop over
-- candidate cycles.
pub mod Types
pub mod Bounds
pub mod Ledger
pub mod Termination
pub mod Targets
pub mod Nodes
pub mod Campaign
pub mod Laws
mod Tests
