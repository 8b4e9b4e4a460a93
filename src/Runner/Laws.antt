-- ===== src/Runner/Laws.antt =====
-- internal/runner: what the environment and the command promise.
pub mod Values
pub mod Environment
pub mod Confinement
pub mod Isolation
pub mod Prepared
pub mod Exit
