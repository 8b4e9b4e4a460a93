-- ===== src/Orchestrator/Termination.antt =====
-- internal/orchestrator/termination.go, and `roleFailure` of orchestrator.go: when a campaign ends.
use Prim.Native.String.{◌++◌}
use gotorque.Prelude.{
  ℕ, String, not, ◌&&◌, Option, none, some, List, [], ◌∷◌, if◌then◌else◌, str_eq, ltb, leb,
  is_empty,
}
use gotorque.Orchestrator.Types.{Config, CampaignState, RoleFailure, Target}

abbrev pub stop_reason_max_candidates : String
stop_reason_max_candidates = "maximum candidate count reached"

abbrev pub stop_reason_ranking_exhausted : String
stop_reason_ranking_exhausted = "every target the analysis flagged has been tried"

abbrev pub stop_reason_nothing_flagged : String
stop_reason_nothing_flagged = "the analysis flagged no target"

abbrev pub stop_reason_consecutive_failures : String
stop_reason_consecutive_failures = "consecutive rejection/inconclusive limit reached"

abbrev pub stop_reason_consecutive_inconclusive : String
stop_reason_consecutive_inconclusive = "consecutive inconclusive limit reached"

abbrev pub stop_reason_provider_failure : String
stop_reason_provider_failure =
    "model provider unavailable: the optimizer failed in two consecutive cycles; last failure: "

abbrev pub stop_reason_analysis_unavailable : String
stop_reason_analysis_unavailable =
    "analysis unavailable: the analyst answered for no hot function; failure: "

-- `outageCycles`
abbrev pub outage_limit : ℕ
outage_limit = 2

abbrev pub role_optimizer : String
role_optimizer = "optimizer"

abbrev pub role_analyst : String
role_analyst = "analyst"

-- `checkpoint`
pub data Checkpoint : Type 0 where
  at_start after_analysis after_cycle : Checkpoint

-- `ending`
pub record Ending : Type 0 where
  pub reason : String
  pub failure : String

-- `roleFailure`: the cause of the last failure of a role, or the empty text. The loop runs from the
-- end of the list, so a later failure hides an earlier one.
unfoldable pub last_cause : List RoleFailure → String → Option String
last_cause [] role = none
last_cause (f ∷ fs) role = elim (last_cause fs role) [
  | some cause ↦ some cause
  | none ↦ if str_eq f.role role then some f.cause else none
]

unfoldable pub role_failure : List RoleFailure → String → String
unfolding last_cause
role_failure failures role = elim (last_cause failures role) [ none ↦ "" | some cause ↦ cause ]

-- `consecutiveBound`
unfoldable pub consecutive_bound : Config → CampaignState → Option String
consecutive_bound cfg state =
    if ltb 0 cfg.max_consecutive_inconclusive
      && leb cfg.max_consecutive_inconclusive state.consecutive_inconclusive
    then some stop_reason_consecutive_inconclusive
    else if leb cfg.max_consecutive_failures state.consecutive_failures
    then some stop_reason_consecutive_failures
    else none

-- `stopReason`: which bound is reached, or the empty text.
unfoldable pub stop_reason : Config → CampaignState → String
unfolding consecutive_bound
stop_reason cfg state =
    if leb cfg.max_candidates state.candidates_tried
    then stop_reason_max_candidates
    else elim (consecutive_bound cfg state) [ some reason ↦ reason | none ↦ "" ]

-- `providerFailure`
unfoldable pub provider_failure : CampaignState → Option String
provider_failure state =
    let cause = role_failure state.cycle_failures role_optimizer in
    if not (str_eq cause "") then some (role_optimizer ++ ": " ++ cause) else none

-- `endedAfterAnalysis` for a cycle whose target is given.
unfoldable pub ended_without : Option Target → Config → CampaignState → Option Ending
ended_without (some target) cfg state = none
ended_without none cfg state =
    let cause = role_failure state.cycle_failures role_analyst in
    let failure = role_analyst ++ (": " ++ cause) in
    if not cfg.stop_when_ranking_exhausted
    then none
    else if not (is_empty state.analysis.targets)
    then some (record { reason = stop_reason_ranking_exhausted; failure = "" })
    else if not (str_eq cause "")
    then some (record { reason = stop_reason_analysis_unavailable ++ failure; failure = failure })
    else some (record { reason = stop_reason_nothing_flagged; failure = "" })

-- `endedAfterAnalysis`
unfoldable pub ended_after_analysis : Config → CampaignState → Option Ending
ended_after_analysis cfg state = ended_without state.target cfg state

-- The ending at a bound, if one is reached.
unfoldable pub ended_at_bound : Config → CampaignState → Option Ending
ended_at_bound cfg state =
    let reason = stop_reason cfg state in
    if not (str_eq reason "") then some (record { reason = reason; failure = "" }) else none

-- The case `afterCycle` of `ended`, where the failure of the provider is given.
unfoldable pub ended_with : Option String → Config → CampaignState → Option Ending
ended_with none cfg state = ended_at_bound cfg state
ended_with (some failure) cfg state =
    if leb outage_limit state.outage_cycles
    then some (record { reason = stop_reason_provider_failure ++ failure; failure = failure })
    else ended_at_bound cfg state

-- The case `afterCycle` of `ended`.
unfoldable pub ended_after_cycle : Config → CampaignState → Option Ending
ended_after_cycle cfg state = ended_with (provider_failure state) cfg state

-- `ended`
unfoldable pub ended : Config → CampaignState → Checkpoint → Option Ending
ended cfg state at_start = ended_at_bound cfg state
ended cfg state after_analysis = ended_after_analysis cfg state
ended cfg state after_cycle = ended_after_cycle cfg state
