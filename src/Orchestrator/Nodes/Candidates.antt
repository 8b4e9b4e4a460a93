-- ===== src/Orchestrator/Nodes/Candidates.antt =====
-- internal/orchestrator/orchestrator.go: the node `evaluate`, which takes or asks again for a candidate.
use gotorque.Prelude.{
  String, Bool, true, false, not, ◌||◌, Option, none, some, if◌then◌else◌, str_eq, is_empty,
  trim_space,
}
use gotorque.Outcome.{Outcome, ok, err, ◌>>=◌}
use gotorque.Orchestrator.Types.{
  CampaignState, Target, OptimizerResult, CandidateEvidence, Assessment,
}
use gotorque.Orchestrator.Nodes.Roles.{Route, go_on, reask}
use gotorque.Orchestrator.Nodes.Start.{valid_decision}

-- `bindAssessment`
unfoldable pub bind_assessment : Assessment → Outcome Assessment
bind_assessment a =
    let verdict =
      if str_eq a.verdict.candidate_id ""
      then record a.verdict { candidate_id = a.evidence.candidate_id }
      else a.verdict in
    if str_eq a.evidence.candidate_id ""
    then err "evaluate candidate: empty candidate ID"
    else if not (valid_decision a.verdict.decision)
    then err "evaluate candidate: invalid decision"
    else if not (str_eq verdict.candidate_id a.evidence.candidate_id)
    then err "evaluate candidate: verdict candidate ID does not match"
    else ok (record a { verdict = verdict })

-- `proposalHasFunctionSource`
unfoldable pub proposal_has_function_source : OptimizerResult → Bool
proposal_has_function_source p =
    not (str_eq (trim_space p.function_source) "") || not (is_empty p.function_sources)

abbrev pub has_target : Option Target → Bool
has_target none = false
has_target (some t) = true

-- `reaskable`
unfoldable pub reaskable : CampaignState → CandidateEvidence → Bool
reaskable state evidence =
    if not (has_target state.target)
      || not (str_eq state.reask_cause "")
      || str_eq evidence.reask_cause ""
    then false
    else str_eq (trim_space state.proposal.patch) ""
      || not (proposal_has_function_source state.proposal)

-- `evaluate` once the assessment is bound: the candidate is held, and asked for again or settled.
unfoldable pub hold_candidate :
    String → OptimizerResult → Assessment → CampaignState → CampaignState × Route
hold_candidate repair proposal a state =
    let evidence = record a.evidence {
      proposal_repair = repair;
      reasked_for = state.reask_cause;
    } in
    let held = record state { proposal = proposal; candidate = evidence; verdict = a.verdict } in
    if reaskable held evidence
    then (record held { reask_cause = evidence.reask_cause }, reask)
    else (record held { reask_cause = "" }, go_on)

-- `evaluate`; the inputs are the decoded proposal with the repair it needed, and what the bench
-- assesses.
unfoldable pub evaluate :
    Outcome (OptimizerResult × String)
    → Outcome Assessment
    → CampaignState
    → Outcome (CampaignState × Route)
evaluate answer assessed state = answer >>= λ p.
    assessed >>= λ a. bind_assessment a >>= λ bound. ok (hold_candidate p.1 p.0 bound state)
