-- ===== src/Policy/Laws/Readings.antt =====
-- internal/policy/policy.go: the checks of the eligible readings and of the stress readings, against
-- the readings that pass.
use gotorque.Prelude.{
  true, false, not, ◌&&◌, ◌||◌, none, some, List, [], ◌∷◌, ◌≡◌, inl, inr, All, arith, Option-cases,
}
use gotorque.Float64.{Float64}
use gotorque.Domain.{MetricComparison}
use gotorque.Policy.Types.{Config, Guardrail, Evidence, Result, reject, inconclusive}
use gotorque.Policy.Readings.{guardrail_limit, breached, over_limit, measured, comparison_results}
use gotorque.Policy.Improvement.{check_eligible_regressions}
use gotorque.Policy.Guardrails.{decide_replicated_breach}
use gotorque.Policy.Stress.{
  guardrail_named, fresh_stress_guardrail, check_replicated_stress_guardrail, check_one_stress,
  check_stress_in, check_stress_comparisons,
}
use gotorque.Policy.Laws.Rails.{Clears, replicates, Outcome}

module _ {F : Type 0} ⦃fl : Float64 F⦄ where
  -- An eligible reading: it is usable, and a regression past the shared limit is not significant.
  abbrev pub ReadingPasses : Config F → MetricComparison F → Type 0
  ReadingPasses config c =
      (measured c ≡ true)
      × (over_limit config c && (c.significant || not config.statistical_support_required) ≡ false)

  -- The eligible readings let a result through exactly when each of them passes.
  pub regressions-Outcome :
      (config : Config F) (cs : List (MetricComparison F)) (result : Result F)
      → Outcome result (check_eligible_regressions config cs result) (All (ReadingPasses config) cs)
  unfolding check_eligible_regressions reject inconclusive
  regressions-Outcome config [] result = (ground arith, ground arith, ground arith)
  regressions-Outcome config (c ∷ cs) result =
      let rest = regressions-Outcome config cs result in
      (ground (arith, rest), ground (arith, rest), ground (arith, rest))

  -- A usable reading of a configured guardrail on a stress workload: not past the limit, or a
  -- replicated guardrail whose fresh series on that workload clears it.
  abbrev pub StressHolds : Config F → Evidence F → MetricComparison F → Guardrail F → Type 0
  StressHolds config evidence c g =
      measured c ≡ true
      → breached config c (guardrail_limit config g) ≡ true
      → (replicates config g ≡ true)
        × Clears config (guardrail_limit config g) (fresh_stress_guardrail evidence c)

  abbrev pub StressPasses : Config F → Evidence F → MetricComparison F → Type 0
  StressPasses config evidence c = elim (guardrail_named config c.metric) [
    | none ↦ Unit
    | some g ↦ StressHolds config evidence c g
  ]

  one_stress-Outcome :
      (config : Config F) (evidence : Evidence F) (c : MetricComparison F) (result : Result F)
      → Outcome result (check_one_stress config evidence c result) (StressPasses config evidence c)
  unfolding check_one_stress check_replicated_stress_guardrail decide_replicated_breach reject
  one_stress-Outcome config evidence c result =
      elim (Option-cases (guardrail_named config c.metric)) [
        | inl e ↦ rw (e, check_one_stress) (ground arith, ground arith, ground arith)
        | inr (g, e) ↦ rw (e, check_one_stress) (ground arith, ground arith, ground arith)
      ]

  stress_in-Outcome :
      (config : Config F) (evidence : Evidence F) (cs : List (MetricComparison F))
      (result : Result F)
      → Outcome result
          (check_stress_in config evidence cs result)
          (All (StressPasses config evidence) cs)
  unfolding check_stress_in
  stress_in-Outcome config evidence [] result = (ground arith, ground arith, ground arith)
  stress_in-Outcome config evidence (c ∷ cs) result =
      let one = one_stress-Outcome config evidence c result in
      let rest = stress_in-Outcome config evidence cs result in
      (ground (arith, one, rest), ground (arith, one, rest), ground (arith, one, rest))

  -- The stress readings let a result through exactly when each of them passes.
  pub stress-Outcome :
      (config : Config F) (evidence : Evidence F) (result : Result F)
      → Outcome result
          (check_stress_comparisons config evidence result)
          (All (StressPasses config evidence) (comparison_results evidence.stress_comparisons))
  unfolding check_stress_comparisons
  stress-Outcome config evidence result =
      stress_in-Outcome config evidence (comparison_results evidence.stress_comparisons) result
