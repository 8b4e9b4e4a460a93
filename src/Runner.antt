-- ===== src/Runner.antt =====
-- internal/runner: the environment of a workload's process, and the command that runs it.
pub mod Environment
pub mod Types
pub mod Command
pub mod Limits
pub mod Laws
mod Tests
