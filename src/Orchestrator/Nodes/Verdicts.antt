-- ===== src/Orchestrator/Nodes/Verdicts.antt =====
-- internal/orchestrator/orchestrator.go: the nodes `applyPolicy` and `route`.
use mathlib.Core.List
use gotorque.Prelude.{
  String, ℕ, ◌+◌, Bool, true, false, not, Option, none, some, [], ◌∷◌, if◌then◌else◌, str_eq,
}
use gotorque.Domain.{Decision, accepted}
use gotorque.Outcome.{Outcome, ok, ◌>>=◌}
use gotorque.Orchestrator.Types.{
  Config, CampaignState, Target, ReviewerResult, Assessment, PriorCandidate,
}
use gotorque.Orchestrator.Ledger.{after}
use gotorque.Orchestrator.Termination.{Ending, after_cycle, ended, provider_failure}
use gotorque.Orchestrator.Nodes.Roles.{Route, go_on, finish}
use gotorque.Orchestrator.Nodes.Start.{separate_bound}

-- `Settlement`, with its `CampaignProgress`.
pub record Settlement : Type 0 where
  pub assessment : Assessment
  pub target : Option Target
  pub review : ReviewerResult
  pub candidates_tried : ℕ
  pub consecutive_failures : ℕ
  pub consecutive_inconclusive : ℕ
  pub last_decision : Decision
  pub candidate_id : String

-- `countDecision`
unfoldable pub count_decision : CampaignState → Decision → Bool → CampaignState
count_decision state decision separate =
    let t =
      after
        (record {
          tried = 0;
          consecutive_failures = state.consecutive_failures;
          consecutive_inconclusive = state.consecutive_inconclusive;
        })
        decision separate in
    record state {
      consecutive_failures = t.consecutive_failures;
      consecutive_inconclusive = t.consecutive_inconclusive;
    }

-- The record that `counted` appends to the history.
unfoldable pub prior_of : CampaignState → PriorCandidate
prior_of state = record {
  attempt = state.candidates_tried + 1;
  hypothesis = state.proposal.hypothesis;
  decision = state.verdict.decision;
  reasons = state.verdict.reasons;
  failure_detail = state.candidate.failure_detail;
  target = state.target;
  unmeasured = state.candidate.unmeasured;
  review_concerns = state.review.concerns;
}

abbrev pub is_accepted : Decision → Bool
is_accepted accepted = true
is_accepted _ = false

-- `counted`
unfoldable pub counted : CampaignState → Bool → CampaignState
unfolding prior_of count_decision
counted state separate =
    let appended = record state {
      evaluation = state.verdict;
      candidates_tried = state.candidates_tried + 1;
      prior_candidates = List.◌++◌ state.prior_candidates (prior_of state ∷ []);
    } in
    let streaks = count_decision appended state.verdict.decision separate in
    record streaks {
      accepted_candidates =
          if is_accepted state.verdict.decision
          then List.◌++◌ state.accepted_candidates (state.verdict.candidate_id ∷ [])
          else state.accepted_candidates;
    }

-- What `applyPolicy` hands to the bench.
unfoldable pub settlement_of : CampaignState → CampaignState → Settlement
settlement_of state settled = record {
  assessment = record { evidence = state.candidate; verdict = state.verdict };
  target = state.target;
  review = state.review;
  candidates_tried = settled.candidates_tried;
  consecutive_failures = settled.consecutive_failures;
  consecutive_inconclusive = settled.consecutive_inconclusive;
  last_decision = state.verdict.decision;
  candidate_id = state.verdict.candidate_id;
}

-- `applyPolicy`; `settles` is what the bench answers to a settlement.
unfoldable pub apply_policy :
    Config
    → Outcome ReviewerResult
    → (Settlement → Outcome (Unit {0}))
    → CampaignState
    → Outcome (CampaignState × Settlement)
apply_policy cfg answer settles state = answer >>= λ review.
    (let reviewed = record state { review = review } in
      let settled = counted reviewed (separate_bound cfg) in
      let settlement = settlement_of reviewed settled in
      settles settlement >>= λ _. ok (settled, settlement))

-- The tally of consecutive outages that `route` keeps, where the failure of the provider is given.
unfoldable pub outage_after : Option String → CampaignState → CampaignState
outage_after (some failure) state = record state { outage_cycles = state.outage_cycles + 1 }
outage_after none state = record state { outage_cycles = 0 }

unfoldable pub count_outage : CampaignState → CampaignState
unfolding outage_after
count_outage state = outage_after (provider_failure state) state

-- The end of `route`: the campaign stops, or the next cycle starts with no failure recorded.
unfoldable pub route_with : Option Ending → CampaignState → CampaignState × Route
route_with none state = (record state { cycle_failures = [] }, go_on)
route_with (some end) state =
    (record state { stop_reason = end.reason; provider_failure = end.failure }, finish)

-- `route`
unfoldable pub route : Config → CampaignState → CampaignState × Route
unfolding route_with
route cfg state =
    if not (str_eq state.stop_reason "")
    then (state, finish)
    else let tallied = count_outage state in route_with (ended cfg tallied after_cycle) tallied
