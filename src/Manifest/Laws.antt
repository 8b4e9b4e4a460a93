-- ===== src/Manifest/Laws.antt =====
-- internal/manifest: what is proved of trade-offs and of the validation of manifests.
pub mod Guardrails
pub mod Apply
pub mod Resolve
pub mod Validate
pub mod Semantics
pub mod Load
pub mod Taken
