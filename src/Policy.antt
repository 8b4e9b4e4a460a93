-- ===== src/Policy.antt =====
-- internal/policy/policy.go: the acceptance decision of a candidate, from its measurements alone.
-- The children hold the data, the texts of the reasons, the readings, the improvements, the
-- guardrails and the verdict; the modules below `Policy/Laws` hold what is proved of them.
pub mod Types
pub mod Reasons
pub mod Readings
pub mod Improvement
pub mod Guardrails
pub mod Stress
pub mod Evaluate
pub mod Triggers
pub mod Laws
mod Samples
mod Tests
