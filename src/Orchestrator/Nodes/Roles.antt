-- ===== src/Orchestrator/Nodes/Roles.antt =====
-- internal/orchestrator/orchestrator.go: the routes between nodes, and the wrapper that absorbs the failures of a model role. What a role
-- answers is an input: an answer that it delivered (decoded, or refused by the decoder), a failure
-- that the wrapper absorbs, or no answer at all.
use mathlib.Core.List
use gotorque.Prelude.{String, [], ◌∷◌}
use gotorque.Outcome.{Outcome, ok}
use gotorque.Orchestrator.Types.{CampaignState}

-- What the inner node of a degrading wrapper came to.
pub data Answer (A : Type 0) : Type 0 where
  delivered : Outcome A → Answer A
  failed : String → Answer A
  silent : Answer A

-- The routes that a node chooses between.
pub data Route : Type 0 where
  go_on finish reask : Route

-- `degradingNode.Run` with `emptyResult`: a failure before any answer is recorded against the role,
-- and the answer is then the empty result.
unfoldable pub degrade :
    {A : Type 0} → String → A → Answer A → CampaignState → Outcome A × CampaignState
degrade role empty (delivered answer) state = (answer, state)
degrade role empty silent state = (ok empty, state)
degrade role empty (failed cause) state = (
  ok empty,
  record state {
    cycle_failures = List.◌++◌ state.cycle_failures (record { role = role; cause = cause } ∷ []);
  },
)
