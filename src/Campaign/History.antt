-- ===== src/Campaign/History.antt =====
-- internal/campaign/history.go and adk.go: what earlier campaigns of a revision, and the records of this one,
-- carry into a campaign. `filepath.Abs` and `LoadReport` are parameters.
use Prim.Native.String.{len, slice, ◌++◌ as text_append}
use gotorque.Prelude.{
  ℕ, ◌+◌, String, Bool, true, false, not, ◌||◌, Option, none, some, List, [], ◌∷◌, ◌++◌,
  if◌then◌else◌, str_eq, is_empty, contains, has_key, length, ltb, ◌==◌, decimal,
}
use gotorque.Outcome.{Outcome, ok, ◌>>=◌}
use gotorque.Domain.{Decision, MetricComparison}
use gotorque.Orchestrator.Types.{Target, PriorCandidate}
use gotorque.Orchestrator.Targets.{target_key}

-- The fields of `CandidateRecord` that a later campaign reads.
pub record CandidateRecord (F : Type 0) : Type 0 where
  pub attempt : ℕ
  pub candidate_id : String
  pub hypothesis : String
  pub target : Option Target
  pub review_concerns : List String
  pub decision : Decision
  pub reasons : List String
  pub comparisons : List (MetricComparison F)
  pub accepted : Bool
  pub unmeasured : Bool
  pub failure_detail : String

-- The fields of a campaign's `State` that a later one reads.
pub record Past (F : Type 0) : Type 0 where
  pub id : String
  pub revision : String
  pub candidate_records : List (CandidateRecord F)

-- `HistorySource`
pub record HistorySource : Type 0 where
  pub directory : String
  pub campaign_id : String
  pub targets : ℕ
  pub skipped : String

-- `AcceptedFix`
pub record AcceptedFix : Type 0 where
  pub function : String
  pub location : String
  pub where_accepted : String

-- `History`, with the map of candidates as a list.
pub record History : Type 0 where
  pub targets : List Target
  pub candidates : List (String × String)
  pub sources : List HistorySource
  pub priors : List PriorCandidate
  pub accepted : List AcceptedFix

abbrev pub no_history : History
no_history = record { targets = []; candidates = []; sources = []; priors = []; accepted = [] }

-- `maxEarlierCandidates`
abbrev pub max_earlier_candidates : ℕ
max_earlier_candidates = 16

-- `shortRevision`
unfoldable pub short_revision : String → String
short_revision revision =
    if ltb 12 (len revision)
    then slice revision 0 12
    else if str_eq revision ""
    then "unknown"
    else revision

-- `fmt.Sprintf` of a campaign and an attempt.
unfoldable pub place : String → ℕ → String
place id attempt =
    text_append "campaign " (text_append id (text_append " attempt " (decimal attempt)))

-- A target of a record that was measured.
abbrev pub put_target : Option Target → Bool → List Target → List Target
put_target (some t) true ts = t ∷ ts
put_target _ _ ts = ts

module _ {F : Type 0} where
  -- `isMeasured`
  abbrev pub is_measured : CandidateRecord F → Bool
  is_measured r = r.accepted || not (is_empty r.comparisons)

  -- `measuredTargets`
  unfoldable pub measured_targets : List (CandidateRecord F) → List Target
  measured_targets [] = []
  measured_targets (r ∷ rs) = put_target r.target (is_measured r) (measured_targets rs)

  abbrev pub put_fix :
      String → CandidateRecord F → Option Target → List AcceptedFix → List AcceptedFix
  put_fix id r none fixes = fixes
  put_fix id r (some t) fixes =
      if r.accepted
      then record {
        function = t.function;
        location = t.location;
        where_accepted = place id r.attempt;
      }
        ∷ fixes
      else fixes

  -- `acceptedFixes`
  unfoldable pub accepted_fixes : String → List (CandidateRecord F) → List AcceptedFix
  accepted_fixes id [] = []
  accepted_fixes id (r ∷ rs) = put_fix id r r.target (accepted_fixes id rs)

  module _ (decision_text : Decision → String) where
    -- `addMeasuredCandidates`
    unfoldable pub add_measured_candidates :
        List (String × String) → String → List (CandidateRecord F) → List (String × String)
    add_measured_candidates m id [] = m
    add_measured_candidates m id (r ∷ rs) =
        add_measured_candidates
          (if (str_eq r.candidate_id "" || not (is_measured r)) || has_key m r.candidate_id
            then m
            else m
              ++ (
                r.candidate_id,
                text_append (place id r.attempt) (text_append ": " (decision_text r.decision)),
              )
                ∷ [])
          id rs

  -- The candidate that the optimizer reads of an earlier campaign.
  abbrev pub earlier_candidate : CandidateRecord F → PriorCandidate
  earlier_candidate r = record {
    attempt = 0;
    hypothesis = r.hypothesis;
    decision = r.decision;
    reasons = r.reasons;
    failure_detail = "";
    target = r.target;
    unmeasured = false;
    review_concerns = [];
  }

  -- `appendEarlierCandidates`
  unfoldable pub append_earlier_candidates :
      List PriorCandidate → List (CandidateRecord F) → List PriorCandidate
  append_earlier_candidates into [] = into
  append_earlier_candidates into (r ∷ rs) =
      let skipped = append_earlier_candidates into rs in
      let added = append_earlier_candidates (into ++ earlier_candidate r ∷ []) rs in
      if length into == max_earlier_candidates
      then into
      else if not (is_measured r)
      then skipped
      else added

  -- One round of `recordedCandidates`.
  abbrev pub recorded_candidate : CandidateRecord F → PriorCandidate
  recorded_candidate r = record {
    attempt = r.attempt;
    hypothesis = r.hypothesis;
    decision = r.decision;
    reasons = r.reasons;
    failure_detail = r.failure_detail;
    target = r.target;
    unmeasured = r.unmeasured;
    review_concerns = r.review_concerns;
  }

  -- `recordedCandidates`
  unfoldable pub recorded_candidates : List (CandidateRecord F) → List PriorCandidate
  recorded_candidates [] = []
  recorded_candidates (r ∷ rs) = recorded_candidate r ∷ recorded_candidates rs

-- The targets of `loadHistory`: the keys seen, the targets kept and how many of one source were new.
pub record Gathered : Type 0 where
  pub seen : List String
  pub kept : List Target
  pub fresh : ℕ

-- One round over the measured targets of a report.
abbrev pub gather_one : Gathered → Target → Gathered
gather_one g t =
    if contains g.seen (target_key t)
    then g
    else record { seen = target_key t ∷ g.seen; kept = g.kept ++ t ∷ []; fresh = g.fresh + 1 }

-- The loop over the measured targets of one report.
unfoldable pub gather : Gathered → List Target → Gathered
gather g [] = g
gather g (t ∷ ts) = gather (gather_one g t) ts

module _ {F : Type 0} (abs : String → Outcome String) (load_report : String → Outcome (Past F))
    (decision_text : Decision → String) where
  -- One round of `loadHistory`, for a report that was read.
  unfoldable pub add_report :
      String → String → Past F → List String × History → List String × History
  add_report revision directory past (seen, h) =
      if not (str_eq past.revision revision)
      then (
        seen,
        record h {
          sources =
              h.sources
              ++ record {
                directory = directory;
                campaign_id = past.id;
                targets = 0;
                skipped = text_append "revision " (
                    text_append (short_revision past.revision)
                      (text_append ", not " (short_revision revision)));
              }
                ∷ [];
        },
      )
      else let g =
          gather record { seen = seen; kept = h.targets; fresh = 0 }
            (measured_targets past.candidate_records) in
        (
          g.seen,
          record {
            targets = g.kept;
            candidates =
                add_measured_candidates decision_text h.candidates past.id past.candidate_records;
            sources =
                h.sources
                ++ record {
                  directory = directory;
                  campaign_id = past.id;
                  targets = g.fresh;
                  skipped = "";
                }
                  ∷ [];
            priors = append_earlier_candidates h.priors past.candidate_records;
            accepted = h.accepted ++ accepted_fixes past.id past.candidate_records;
          },
        )

  -- The loop of `loadHistory` over the directories.
  unfoldable pub load_from :
      String → List String → List String × History → Outcome (List String × History)
  load_from revision [] h = ok h
  load_from revision (dir ∷ dirs) h = abs dir >>= λ directory. load_report directory >>= λ past.
      load_from revision dirs (add_report revision directory past h)

  -- `loadHistory`
  unfoldable pub load_history : List String → String → Outcome History
  load_history dirs revision = load_from revision dirs ([], no_history) >>= λ (seen, h). ok h
