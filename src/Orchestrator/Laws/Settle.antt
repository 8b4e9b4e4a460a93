-- ===== src/Orchestrator/Laws/Settle.antt =====
-- internal/orchestrator/orchestrator.go: what one cycle settles, and which assessments it takes.
use mathlib.Core.Path.{subst}
use gotorque.Prelude.{
  ◌+◌, Bool, true, false, Option, none, some, [], ◌∷◌, ◌++◌, ◌≡◌, refl, sym, arith, str_eq,
}
use gotorque.Outcome.{Ensures, Ensures-map}
use gotorque.Orchestrator.Types.{Config, CampaignState, Assessment, PriorCandidate}
use gotorque.Orchestrator.Nodes.{
  Settlement, counted, settlement_of, separate_bound, valid_decision, prior_of,
}
use gotorque.Orchestrator.Campaign.{CycleInput, cycle}
use gotorque.Orchestrator.Laws.Frame.{Keeps}
use gotorque.Orchestrator.Laws.Cycle.{CycleEnd, skipped, settled, cycle-CycleEnd}
use gotorque.Orchestrator.Laws.Ledger.{counters, counted-history}

-- A settlement against the states before and after its cycle: it carries the counters of the state
-- after it, and the history has grown by one attempt with its number, verdict and target.
pub record SettledBy (s t : CampaignState) (o : Settlement) : Type 0 where
  pub attempt : PriorCandidate
  pub history : t.prior_candidates ≡ s.prior_candidates ++ attempt ∷ []
  pub numbered : attempt.attempt ≡ s.candidates_tried + 1
  pub decided : attempt.decision ≡ o.assessment.verdict.decision
  pub told : o.last_decision ≡ attempt.decision
  pub named : o.candidate_id ≡ o.assessment.verdict.candidate_id
  pub targeted : attempt.target ≡ o.target
  pub tried : o.candidates_tried ≡ t.candidates_tried
  pub failures : o.consecutive_failures ≡ t.consecutive_failures
  pub undecided : o.consecutive_inconclusive ≡ t.consecutive_inconclusive

-- A cycle that settles nothing leaves the history and the counters alone.
abbrev pub Journaled : CampaignState → CampaignState × Option Settlement → Type 0
Journaled s (t, none) = (t.prior_candidates ≡ s.prior_candidates) × (counters t ≡ counters s)
Journaled s (t, some o) = SettledBy s t o

settlement-SettledBy :
    (s judged : CampaignState) (separate : Bool)
    → Keeps s judged
    → SettledBy s (counted judged separate) (settlement_of judged (counted judged separate))
unfolding settlement_of prior_of
settlement-SettledBy s judged separate kept = record {
  attempt = prior_of judged;
  history = rw (counted-history judged separate, kept.prior_candidates) refl;
  numbered = rw kept.candidates_tried refl;
  decided = refl;
  told = refl;
  named = refl;
  targeted = refl;
  tried = refl;
  failures = refl;
  undecided = refl;
}

CycleEnd-Journaled :
    (cfg : Config) (s : CampaignState) (p : CampaignState × Option Settlement)
    → CycleEnd cfg s p
    → Journaled s p
CycleEnd-Journaled cfg s p (skipped o kept stopped) =
    subst (λ u. Journaled s (p.0, u)) (sym o) (kept.prior_candidates, ground (arith, kept))
CycleEnd-Journaled cfg s p (settled judged kept c o) =
    subst (λ u. Journaled s (p.0, u)) (sym o)
      (subst (λ u. SettledBy s u (settlement_of judged u)) (sym c)
        (settlement-SettledBy s judged (separate_bound cfg) kept))

-- Every cycle that ends without an error settles one verdict or none: a settlement carries the
-- counters that the campaign goes on with and the attempt that its history grew by, and with no
-- settlement the history and the counters are as they were.
pub cycle-Journaled :
    (cfg : Config) (input : CycleInput) (s : CampaignState)
    → Ensures (Journaled s) (cycle cfg input s)
cycle-Journaled cfg input s =
    Ensures-map (λ p end. CycleEnd-Journaled cfg s p end) (cycle cfg input s)
      (cycle-CycleEnd cfg input s)

-- An assessment that was bound: its decision is a known one, its two candidate ids are the same and
-- not empty, and its evidence and its decision are those the bench gave.
abbrev pub Bound : Assessment → Assessment → Type 0
Bound a b =
    (valid_decision b.verdict.decision ≡ true)
    × (str_eq b.verdict.candidate_id b.evidence.candidate_id ≡ true)
    × (str_eq b.evidence.candidate_id "" ≡ false)
    × (b.evidence ≡ a.evidence)
    × (b.verdict.decision ≡ a.verdict.decision)
