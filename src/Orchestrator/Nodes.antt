-- ===== src/Orchestrator/Nodes.antt =====
-- internal/orchestrator/orchestrator.go: the nodes of the campaign graph. Each takes the state and
-- what the outside answers, and gives the next state with the route that is taken.
mod Roles
mod Start
mod Analysis
mod Candidates
mod Verdicts
unfoldable pub use Roles.*
unfoldable pub use Start.*
unfoldable pub use Analysis.*
unfoldable pub use Candidates.*
unfoldable pub use Verdicts.*
