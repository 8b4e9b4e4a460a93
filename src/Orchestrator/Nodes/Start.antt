-- ===== src/Orchestrator/Nodes/Start.antt =====
-- internal/orchestrator/orchestrator.go: the nodes `initialize`, `discover` and `finalize`. The texts of errors
-- leave out the values that the code quotes in them.
use gotorque.Prelude.{
  String, Bool, true, false, not, ◌&&◌, ◌||◌, Option, none, some, List, [], ◌∷◌, if◌then◌else◌,
  str_eq, ltb,
}
use gotorque.Domain.{Decision, accepted, rejected, inconclusive, other}
use gotorque.Outcome.{Outcome, ok, err, ◌>>=◌}
use gotorque.Orchestrator.Types.{
  Config, CampaignRequest, CampaignState, CampaignResult, no_analysis, no_proposal, no_review,
  no_evaluation, no_evidence, PriorCandidate,
}
use gotorque.Orchestrator.Ledger.{tallies_of}
use gotorque.Orchestrator.Termination.{Ending, at_start, ended}
use gotorque.Orchestrator.Nodes.Roles.{Route, go_on, finish}

-- `validDecision`
unfoldable pub valid_decision : Decision → Bool
valid_decision accepted = true
valid_decision rejected = true
valid_decision inconclusive = true
valid_decision (other text) = false

abbrev all_valid : List PriorCandidate → Bool
all_valid [] = true
all_valid (c ∷ cs) = valid_decision c.decision && all_valid cs

-- `normalizeRequest`
unfoldable pub normalize_request : CampaignRequest → Outcome CampaignRequest
normalize_request req =
    let mode = if str_eq req.optimization_mode "" then "idiomatic" else req.optimization_mode in
    if str_eq req.campaign_id ""
    then err "campaign ID is required"
    else if str_eq req.repository ""
    then err "repository is required"
    else if str_eq req.build_target ""
    then err "build target is required"
    else if not (all_valid req.recorded_candidates)
    then err "recorded candidate has invalid decision"
    else if str_eq mode "idiomatic" || str_eq mode "specialized" || str_eq mode "native"
    then ok (record req { optimization_mode = mode })
    else err "unknown optimization mode"

abbrev pub separate_bound : Config → Bool
separate_bound cfg = ltb 0 cfg.max_consecutive_inconclusive

-- The state that `initialize` builds.
unfoldable pub initial_state : Config → CampaignRequest → CampaignState
initial_state cfg req =
    let t = tallies_of req.recorded_candidates (separate_bound cfg) in
    record {
      request = req;
      hot_functions = [];
      analysis = no_analysis;
      target = none;
      proposal = no_proposal;
      candidate = no_evidence;
      verdict = no_evaluation;
      review = no_review;
      evaluation = no_evaluation;
      prior_candidates = req.recorded_candidates;
      candidates_tried = t.tried;
      consecutive_failures = t.consecutive_failures;
      consecutive_inconclusive = t.consecutive_inconclusive;
      accepted_candidates = [];
      stop_reason = "";
      cycle_failures = [];
      provider_failure = "";
      outage_cycles = 0;
      reask_cause = "";
      source_excerpts = [];
    }

-- The end of `initialize`: a stop keeps no failure.
unfoldable pub start_with : Option Ending → CampaignState → CampaignState × Route
start_with none state = (state, go_on)
start_with (some end) state = (record state { stop_reason = end.reason }, finish)

unfoldable pub initialize_state : Config → CampaignState → CampaignState × Route
unfolding start_with
initialize_state cfg state = start_with (ended cfg state at_start) state

-- `initialize`; `noted` is what the bench answers to the note that the campaign started.
unfoldable pub initialize :
    Config → Outcome (Unit {0}) → CampaignRequest → Outcome (CampaignState × Route)
initialize cfg noted request = normalize_request request >>= λ req.
    noted >>= λ _. ok (initialize_state cfg (initial_state cfg req))

-- `discover`; the input is the evidence that the bench holds.
unfoldable pub discover : Outcome (List String) → CampaignState → Outcome CampaignState
discover evidence state =
    evidence >>= λ hot_functions. ok (record state { hot_functions = hot_functions })

-- `finalize`; `noted` is what the bench answers to the note that the campaign finished.
unfoldable pub finalize :
    (CampaignResult → Outcome (Unit {0})) → CampaignState → Outcome CampaignResult
finalize noted state =
    let result : CampaignResult = record {
      campaign_id = state.request.campaign_id;
      candidates_tried = state.candidates_tried;
      accepted_candidates = state.accepted_candidates;
      final_evaluation = state.evaluation;
      stop_reason = state.stop_reason;
      provider_failure = state.provider_failure;
    } in
    noted result >>= λ _. ok result
