-- ===== src/Policy/Laws/Veto.antt =====
-- internal/policy/policy.go: what the stress readings can do to a verdict.
use mathlib.Core.Path.{subst}
use mathlib.Core.Option.{some-injective}
use gotorque.Prelude.{false, some, none, Option, [], ◌≡◌, sym, ◌∙◌, arith, ◌&&◌, if◌then◌else◌}
use gotorque.Float64.{Float64}
use gotorque.Domain.{Decision, accepted, rejected}
use gotorque.Policy.Types.{Config, Evidence, Result, reject, inconclusive, with_defaults}
use gotorque.Policy.Readings.{comparison_results, sort_stable}
use gotorque.Policy.Guardrails.{first_series_guardrail, fresh_guardrail}
use gotorque.Policy.Evaluate.{evaluate}
use gotorque.Policy.Laws.Verdict.{Supports, evaluate-accepted_iff}

module _ {F : Type 0} ⦃fl : Float64 F⦄ where
  abbrev pub without_stress : Evidence F → Evidence F
  without_stress evidence = record evidence { stress_comparisons = [] }

  Supports-without_stress :
      (config : Config F) (evidence : Evidence F)
      → Supports config evidence
      → Supports config (without_stress evidence)
  unfolding comparison_results sort_stable first_series_guardrail fresh_guardrail
  Supports-without_stress config evidence (b, s, r, (eligible, is_eligible, some_reading, p)) = (
    b,
    s,
    r,
    (
      eligible,
      is_eligible,
      some_reading,
      record {
        rails = p.rails;
        readings = p.readings;
        stress = tt;
        best = p.best;
        is_best = p.is_best;
        wins = p.wins;
      },
    ),
  )

  -- The stress readings can only veto: a candidate that is accepted with them is accepted without
  -- them.
  pub evaluate-stress_vetoes :
      (config : Config F) (evidence : Evidence F) (r : Result F)
      → evaluate config evidence ≡ some r
      → r.decision ≡ accepted
      → (r' : Result F) × (evaluate config (without_stress evidence) ≡ some r')
        × (r'.decision ≡ accepted)
  evaluate-stress_vetoes config evidence r e a =
      let (s, es, s_iff) = evaluate-accepted_iff config evidence in
      let (t, et, t_iff) = evaluate-accepted_iff config (without_stress evidence) in
      let same = some-injective _ _ (sym e ∙ es) in
      (
        t,
        et,
        t_iff.1 (
            Supports-without_stress (with_defaults config) evidence
              (s_iff.0 (subst (λ (x : Result F). x.decision ≡ accepted) same a))),
      )

  -- The decision of a verdict that was reached.
  abbrev pub decided : Option (Result F) → Option Decision
  decided none = none
  decided (some r) = some r.decision

  -- Where the evidence is incomplete, no measurement counts: the candidate is rejected where its
  -- behavior does not match or a safety check failed, and is neither accepted nor rejected where only
  -- the representative evidence is missing.
  pub evaluate-incomplete :
      (config : Config F) (evidence : Evidence F)
      → evidence.behavior_matches
          && (evidence.safety_checks_passed && evidence.representative_evidence)
        ≡ false
      → decided (evaluate config evidence)
        ≡ some (
            if evidence.behavior_matches && evidence.safety_checks_passed
            then Decision.inconclusive
            else rejected)
  unfolding evaluate reject inconclusive
  evaluate-incomplete config evidence h = ground arith
