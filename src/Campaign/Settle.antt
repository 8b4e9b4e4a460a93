-- ===== src/Campaign/Settle.antt =====
-- internal/campaign/adk.go: settling a verdict, with the record that it leaves. What copying the patch and
-- saving an event return are parameters; of a verdict, the comparisons are one.
use gotorque.Prelude.{ℕ, ◌+◌, Bool, List, [], ◌∷◌, ◌++◌, if◌then◌else◌, length}
use gotorque.Domain.{MetricComparison}
use gotorque.Outcome.{Outcome, ok, err}
use gotorque.Orchestrator.Nodes.{Settlement, is_accepted}
use gotorque.Campaign.History.{CandidateRecord}

module _ {F : Type 0} where
  -- `candidateRecord`, with the mark of `persistVerdict`
  unfoldable pub candidate_record :
      ℕ → Settlement → List (MetricComparison F) → Bool → CandidateRecord F
  candidate_record attempt s comparisons marked = record {
    attempt = attempt;
    candidate_id = s.assessment.evidence.candidate_id;
    hypothesis = s.assessment.evidence.hypothesis;
    target = s.target;
    review_concerns = s.review.concerns;
    decision = s.assessment.verdict.decision;
    reasons = s.assessment.verdict.reasons;
    comparisons = comparisons;
    accepted = marked;
    unmeasured = s.assessment.evidence.unmeasured;
    failure_detail = s.assessment.evidence.failure_detail;
  }

-- What the engine's state has of the campaign's verdicts.
pub record Recorded (F : Type 0) : Type 0 where
  pub candidate_records : List (CandidateRecord F)
  pub consecutive_failures : ℕ
  pub consecutive_inconclusive : ℕ

module _ {F : Type 0} where
  -- `persistVerdict`; that its event was not saved is not looked at.
  unfoldable pub persist_verdict : Settlement → List (MetricComparison F) → Recorded F → Recorded F
  persist_verdict s comparisons e = record e {
    candidate_records =
        e.candidate_records
        ++ candidate_record (length e.candidate_records + 1) s comparisons
            (is_accepted s.assessment.verdict.decision)
          ∷ [];
  }

  -- The end of `settle`, after the event of an accepted candidate.
  unfoldable pub settle_tallies :
      Outcome (Unit {0})
      → Outcome (Unit {0})
      → Settlement
      → Recorded F
      → Recorded F × Outcome (Unit {0})
  settle_tallies (err e) saved s r = (r, err e)
  settle_tallies (ok _) saved s r = (
    record r {
      consecutive_failures = s.consecutive_failures;
      consecutive_inconclusive = s.consecutive_inconclusive;
    },
    saved,
  )

  -- `settle` once it is known whether the patch of an accepted candidate was kept.
  unfoldable pub settle_kept :
      Outcome (Unit {0})
      → Outcome (Unit {0})
      → Outcome (Unit {0})
      → Settlement
      → List (MetricComparison F)
      → Recorded F
      → Recorded F × Outcome (Unit {0})
  settle_kept (err e) promoted saved s comparisons r = (r, err e)
  settle_kept (ok _) promoted saved s comparisons r =
      settle_tallies promoted saved s (persist_verdict s comparisons r)

  -- `settle`: what `keepAcceptedPatch`, the event `candidate_accepted` and the event `adk_progress`
  -- return are given.
  unfoldable pub settle :
      Outcome (Unit {0})
      → Outcome (Unit {0})
      → Outcome (Unit {0})
      → Settlement
      → List (MetricComparison F)
      → Recorded F
      → Recorded F × Outcome (Unit {0})
  settle kept promoted saved s comparisons r =
      if is_accepted s.assessment.verdict.decision
      then settle_kept kept promoted saved s comparisons r
      else settle_kept (ok tt) (ok tt) saved s comparisons r
