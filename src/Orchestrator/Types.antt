-- ===== src/Orchestrator/Types.antt =====
-- internal/orchestrator/types.go, config.go and internal/agents/types.go: the data of a campaign.
-- Fields that no modelled function reads or writes (measurements, excerpt contents, artifact
-- locations, durations) are left out.
use gotorque.Prelude.{ℕ, String, Bool, false, List, [], Option}
use gotorque.Domain.{Decision}

-- `agents.FunctionRef`
pub record FunctionRef : Type 0 where
  pub location : String
  pub function : String

-- `agents.Target`
pub record Target : Type 0 where
  pub location : String
  pub function : String
  pub cause : String
  pub remedy : String
  pub fix_kind : String
  pub callers : List FunctionRef

-- `agents.HotPath`
pub record HotPath : Type 0 where
  pub location : String

-- `agents.AnalystResult`
pub record AnalystResult : Type 0 where
  pub hot_paths : List HotPath
  pub targets : List Target

abbrev pub no_analysis : AnalystResult
no_analysis = record { hot_paths = []; targets = [] }

-- `agents.OptimizerResult`
pub record OptimizerResult : Type 0 where
  pub hypothesis : String
  pub patch : String
  pub function_source : String
  pub function_sources : List String

abbrev pub no_proposal : OptimizerResult
no_proposal = record { hypothesis = ""; patch = ""; function_source = ""; function_sources = [] }

-- `agents.ReviewerResult`
pub record ReviewerResult : Type 0 where
  pub concerns : List String

abbrev pub no_review : ReviewerResult
no_review = record { concerns = [] }

-- `domain.Evaluation`
pub record Evaluation : Type 0 where
  pub candidate_id : String
  pub decision : Decision
  pub reasons : List String

abbrev pub no_evaluation : Evaluation
no_evaluation = record { candidate_id = ""; decision = Decision.other ""; reasons = [] }

-- `CandidateEvidence`, with the id and the hypothesis of its candidate
pub record CandidateEvidence : Type 0 where
  pub candidate_id : String
  pub hypothesis : String
  pub failure_detail : String
  pub unmeasured : Bool
  pub reask_cause : String
  pub reasked_for : String
  pub proposal_repair : String

abbrev pub no_evidence : CandidateEvidence
no_evidence = record {
  candidate_id = "";
  hypothesis = "";
  failure_detail = "";
  unmeasured = false;
  reask_cause = "";
  reasked_for = "";
  proposal_repair = "";
}

-- `Assessment`
pub record Assessment : Type 0 where
  pub evidence : CandidateEvidence
  pub verdict : Evaluation

-- `PriorCandidate`
pub record PriorCandidate : Type 0 where
  pub attempt : ℕ
  pub hypothesis : String
  pub decision : Decision
  pub reasons : List String
  pub failure_detail : String
  pub target : Option Target
  pub unmeasured : Bool
  pub review_concerns : List String

-- `RoleFailure`
pub record RoleFailure : Type 0 where
  pub role : String
  pub cause : String

-- `SourceExcerpt`
pub record SourceExcerpt : Type 0 where
  pub path : String
  pub start_line : ℕ
  pub hot_path : String

-- `CampaignRequest`
pub record CampaignRequest : Type 0 where
  pub campaign_id : String
  pub repository : String
  pub build_target : String
  pub optimization_mode : String
  pub prior_targets : List Target
  pub recorded_candidates : List PriorCandidate

-- `Config`, once its defaults are filled in and it is validated; 0 for
-- `max_consecutive_inconclusive` asks for the combined bound.
pub record Config : Type 0 where
  pub max_candidates : ℕ
  pub max_consecutive_failures : ℕ
  pub max_consecutive_inconclusive : ℕ
  pub stop_when_ranking_exhausted : Bool

-- `CampaignState`
pub record CampaignState : Type 0 where
  pub request : CampaignRequest
  pub hot_functions : List String
  pub analysis : AnalystResult
  pub target : Option Target
  pub proposal : OptimizerResult
  pub candidate : CandidateEvidence
  pub verdict : Evaluation
  pub review : ReviewerResult
  pub evaluation : Evaluation
  pub prior_candidates : List PriorCandidate
  pub candidates_tried : ℕ
  pub consecutive_failures : ℕ
  pub consecutive_inconclusive : ℕ
  pub accepted_candidates : List String
  pub stop_reason : String
  pub cycle_failures : List RoleFailure
  pub provider_failure : String
  pub outage_cycles : ℕ
  pub reask_cause : String
  pub source_excerpts : List SourceExcerpt

-- `CampaignResult`
pub record CampaignResult : Type 0 where
  pub campaign_id : String
  pub candidates_tried : ℕ
  pub accepted_candidates : List String
  pub final_evaluation : Evaluation
  pub stop_reason : String
  pub provider_failure : String
