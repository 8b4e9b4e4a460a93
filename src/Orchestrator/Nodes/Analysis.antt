-- ===== src/Orchestrator/Nodes/Analysis.antt =====
-- internal/orchestrator/orchestrator.go: the node `mergeAnalysis`.
use gotorque.Prelude.{Option, none, some, List, if◌then◌else◌, is_empty}
use gotorque.Outcome.{Outcome, ok, err, ◌>>=◌}
use gotorque.Orchestrator.Types.{Config, CampaignState, AnalystResult, SourceExcerpt}
use gotorque.Orchestrator.Termination.{Ending, after_analysis, ended}
use gotorque.Orchestrator.Targets.{plan_target, discovery_hot_paths}
use gotorque.Orchestrator.Nodes.Roles.{Route, go_on, finish}

-- `attachExcerpts`; `excerpts` is what the bench answers for an analysis.
unfoldable pub attach_excerpts :
    (AnalystResult → Outcome (List SourceExcerpt)) → AnalystResult → CampaignState → CampaignState
attach_excerpts excerpts result state =
    let analysis =
      if is_empty result.hot_paths
      then record result { hot_paths = discovery_hot_paths state.hot_functions }
      else result in
    elim (excerpts analysis) [ ok found ↦ record state { source_excerpts = found } | err e ↦ state ]

-- The end of `mergeAnalysis`: the stop that the analysis asks for, if any.
unfoldable pub stop_with : Option Ending → CampaignState → CampaignState × Route
stop_with none state = (state, go_on)
stop_with (some end) state =
    (record state { stop_reason = end.reason; provider_failure = end.failure }, finish)

unfoldable pub stop_after_analysis : Config → CampaignState → CampaignState × Route
unfolding stop_with
stop_after_analysis cfg state = stop_with (ended cfg state after_analysis) state

-- The state of `mergeAnalysis` once the target is planned.
unfoldable pub analysed :
    (AnalystResult → Outcome (List SourceExcerpt)) → AnalystResult → CampaignState → CampaignState
unfolding attach_excerpts
analysed excerpts result state =
    let planned =
      plan_target (attach_excerpts excerpts result (record state { analysis = result })) in
    record planned { reask_cause = "" }

-- `mergeAnalysis`
unfoldable pub merge_analysis :
    Config
    → (AnalystResult → Outcome (List SourceExcerpt))
    → Outcome AnalystResult
    → CampaignState
    → Outcome (CampaignState × Route)
merge_analysis cfg excerpts answer state =
    answer >>= λ result. ok (stop_after_analysis cfg (analysed excerpts result state))
