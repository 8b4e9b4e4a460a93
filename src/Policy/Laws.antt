-- ===== src/Policy/Laws.antt =====
-- internal/policy/policy.go: what is proved of the acceptance decision.
pub mod Rails
pub mod Readings
pub mod Best
pub mod Eligible
pub mod Verdict
pub mod Order
pub mod Support
pub mod Veto
pub mod Triggers
