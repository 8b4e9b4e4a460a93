-- ===== src/Orchestrator/Tests.antt =====
-- internal/orchestrator: a sample campaign, and the theorems at inputs that meet their hypotheses.
use gotorque.Prelude.{pos, ◌≤◌, ℕ, String, true, false, some, [], ◌∷◌, ◌≡◌, refl, arith, trim_space}
use gotorque.Domain.{accepted, rejected}
use gotorque.Outcome.{is_ok, ok, err, Ensures, Yields}
use gotorque.Orchestrator.Types.{
  Config, CampaignRequest, CampaignState, Target, AnalystResult, OptimizerResult, no_evidence,
  Assessment, PriorCandidate,
}
use gotorque.Orchestrator.Ledger.{tallies_of, tally, after}
use gotorque.Orchestrator.Nodes.{
  finish, delivered, failed, initial_state, bind_assessment, initialize, normalize_request,
  valid_decision, initialize_state, start_with, discover, merge_analysis, degrade, analysed,
  apply_policy, attach_excerpts, count_decision, count_outage, outage_after, counted, evaluate,
  finalize, hold_candidate, prior_of, proposal_has_function_source, reaskable, route, route_with,
  settlement_of, stop_after_analysis, stop_with,
}
use gotorque.Orchestrator.Targets.{
  plan_target, target_key, before_colon, discovery_hot_paths, excerpts_at, next_target,
  note_attempt, note_target, plan_next, prior_tried, put_headers, tried_targets,
}
use gotorque.Orchestrator.Termination.{
  stop_reason_provider_failure, ended, ended_at_bound, stop_reason, consecutive_bound,
  ended_after_analysis, ended_after_cycle, ended_with, ended_without, last_cause, provider_failure,
  role_failure,
}
use gotorque.Orchestrator.Campaign.{
  CycleInput, cycle, cycles, campaign, run_from, after_merge, ask_loop, ask_once, review_and_settle,
  route_ask, route_cycle,
}
use gotorque.Orchestrator.Bounds.{GivenConfig, default_config, normalized, bounds}
use gotorque.Orchestrator.Laws.Outage.{route-outage}
use Prim.Native.String.{◌++◌}
use gotorque.Orchestrator.Laws.Bounds.{IsUsable, none_negative, normalized-IsUsable}
use gotorque.Orchestrator.Laws.Ledger.{counters, AttemptsUpTo, tallies_of-attempts}
use gotorque.Orchestrator.Laws.Total.{Returns}
use gotorque.Orchestrator.Laws.Results.{Bounded, resumes-counters, campaign-ends}
use gotorque.Orchestrator.Laws.Targets.{first_open, plan_target-first_open}
use gotorque.Orchestrator.Laws.Settle.{Journaled, cycle-Journaled}

-- A configuration that leaves most of its fields to the defaults.
abbrev given : GivenConfig
given = record default_config { max_candidates = pos 0; agent_timeout = pos 0 }

normalized-IsUsable_example :
    (is_ok (normalized given) ≡ none_negative given)
    × Yields
        (λ d. IsUsable d × (1 ≤ (bounds d).max_candidates) × (normalized d ≡ ok d))
        (normalized given)
normalized-IsUsable_example = normalized-IsUsable given

abbrev target_at : String → Target
target_at location = record {
  location = location;
  function = "Parse";
  cause = "allocation";
  remedy = "preallocate";
  fix_kind = "";
  callers = [];
}

abbrev attempt_on : ℕ → String → PriorCandidate
attempt_on n location = record {
  attempt = n;
  hypothesis = "preallocate";
  decision = rejected;
  reasons = "no improvement" ∷ [];
  failure_detail = "";
  target = some (target_at location);
  unmeasured = false;
  review_concerns = [];
}

abbrev request : CampaignRequest
request = record {
  campaign_id = "c1";
  repository = "repo";
  build_target = "./cmd";
  optimization_mode = "";
  prior_targets = [];
  recorded_candidates = attempt_on 3 "a.go:1" ∷ attempt_on 1 "b.go:2" ∷ [];
}

abbrev config : Config
config = record {
  max_candidates = 5;
  max_consecutive_failures = 4;
  max_consecutive_inconclusive = 0;
  stop_when_ranking_exhausted = true;
}

abbrev analysis : AnalystResult
analysis = record { hot_paths = []; targets = target_at "a.go:1" ∷ target_at "c.go:3" ∷ [] }

abbrev proposal : OptimizerResult
proposal = record {
  hypothesis = "preallocate";
  patch = "diff";
  function_source = "func Parse() {}";
  function_sources = [];
}

abbrev assessment : Assessment
assessment = record {
  evidence = record no_evidence { candidate_id = "candidate-4" };
  verdict = record { candidate_id = ""; decision = accepted; reasons = "faster" ∷ [] };
}

-- A cycle in which every role answers.
abbrev input : CycleInput
input = record {
  analyst = delivered (ok analysis);
  excerpts = λ _. err "no excerpts";
  asks = λ _. record { optimizer = delivered (ok (proposal, "")); assessed = ok assessment };
  reviewer = failed "timeout";
  settles = λ _. ok tt;
}

abbrev inputs : ℕ → CycleInput
inputs n = input

-- The state in which the second target of the analysis is the next one.
abbrev analysed_state : CampaignState
analysed_state = record (initial_state config request) { analysis = analysis }

resumes-counters_example :
    Ensures
      (λ q.
        counters
          (initial_state config (record request { recorded_candidates = q.0.prior_candidates }))
        ≡ counters q.0)
      (cycles 5 config inputs (initial_state config request) [])
resumes-counters_example = resumes-counters 5 config inputs request request

campaign-ends_example :
    Returns (campaign 5 config (ok tt) (ok []) inputs (λ _. ok tt) request)
    × Ensures
        (Bounded config request)
        (campaign 5 config (ok tt) (ok []) inputs (λ _. ok tt) request)
campaign-ends_example =
    campaign-ends 5 config (ok tt) (ok []) inputs (λ _. ok tt) request (omega arith)

plan_target-first_open_example :
    (plan_target analysed_state).target ≡ first_open analysed_state analysed_state.analysis.targets
plan_target-first_open_example = plan_target-first_open analysed_state

cycle-Journaled_example :
    Ensures
      (Journaled (initial_state config request))
      (cycle config input (initial_state config request))
cycle-Journaled_example = cycle-Journaled config input (initial_state config request)

tallies_of-attempts_example :
    AttemptsUpTo (tallies_of request.recorded_candidates true).tried request.recorded_candidates
tallies_of-attempts_example = tallies_of-attempts request.recorded_candidates true

-- A second cycle in a row in which the optimizer failed.
abbrev out_state : CampaignState
out_state = record (initial_state config request) {
  cycle_failures = record { role = "optimizer"; cause = "timeout" } ∷ [];
  outage_cycles = 1;
}

route-outage_example :
    ((route config out_state).1 ≡ finish)
    × ((route config out_state).0.provider_failure ≡ "optimizer: timeout")
    × ((route config out_state).0.stop_reason
        ≡ stop_reason_provider_failure ++ "optimizer: timeout")
unfolding provider_failure role_failure last_cause initial_state
route-outage_example = route-outage config out_state "optimizer: timeout" refl refl (omega arith)

-- The target of an attempt that was measured is passed over.
second_target : (plan_target analysed_state).target ≡ some (target_at "c.go:3")
unfolding initial_state target_key
second_target = plan_target-first_open analysed_state

-- The second target is worked on and accepted as the fourth attempt, with the reviewer's failure
-- absorbed; the next analysis flags nothing that is open, and the campaign ends.
sample_campaign :
    campaign 5 config (ok tt) (ok []) inputs (λ _. ok tt) request
    ≡ some (
        ok (record {
          campaign_id = "c1";
          candidates_tried = 4;
          accepted_candidates = "candidate-4" ∷ [];
          final_evaluation = record {
            candidate_id = "candidate-4";
            decision = accepted;
            reasons = "faster" ∷ [];
          };
          stop_reason = "every target the analysis flagged has been tried";
          provider_failure = "";
        }))
unfolding campaign run_from cycles cycle after_merge ask_loop ask_once review_and_settle route_ask
    route_cycle initialize normalize_request valid_decision initialize_state start_with discover
    merge_analysis degrade analysed apply_policy attach_excerpts bind_assessment count_decision
    count_outage outage_after counted evaluate finalize hold_candidate prior_of
    proposal_has_function_source reaskable route route_with settlement_of stop_after_analysis
    stop_with initial_state before_colon discovery_hot_paths excerpts_at next_target note_attempt
    note_target plan_next plan_target prior_tried put_headers target_key tried_targets ended
    ended_at_bound stop_reason consecutive_bound ended_after_analysis ended_after_cycle ended_with
    ended_without last_cause provider_failure role_failure tallies_of tally after trim_space
sample_campaign = refl
