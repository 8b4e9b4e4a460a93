-- ===== src/Policy/Stress.antt =====
-- internal/policy/policy.go: the guardrail readings of the workloads kept out of acceptance.
use Prim.Native.String.{◌++◌}
use gotorque.Prelude.{
  String, Bool, true, false, not, ◌&&◌, Option, none, some, List, [], ◌∷◌, if◌then◌else◌, str_eq,
}
use gotorque.Float64.{Float64}
use gotorque.Domain.{MetricComparison}
use gotorque.Policy.Types.{Config, Guardrail, Evidence, Result, reject}
use gotorque.Policy.Reasons.{stress_breach_note, stress_breach_reason}
use gotorque.Policy.Readings.{
  comparison_results, guardrail_limit, breached, replicated_guardrail, measured,
}
use gotorque.Policy.Guardrails.{decide_replicated_breach}

module _ {F : Type 0} where
  -- The loop of `guardrailNamed`.
  unfoldable pub named_in : List (Guardrail F) → String → Option (Guardrail F)
  named_in [] name = none
  named_in (g ∷ gs) name =
      let rest = named_in gs name in if str_eq g.name name then some g else rest

  -- `guardrailNamed`
  unfoldable pub guardrail_named : Config F → String → Option (Guardrail F)
  guardrail_named config name = named_in config.guardrails name

  -- The loop of `freshStressGuardrail`.
  unfoldable pub same_reading_in :
      List (MetricComparison F) → MetricComparison F → Option (MetricComparison F)
  same_reading_in [] breach = none
  same_reading_in (c ∷ cs) breach =
      let rest = same_reading_in cs breach in
      if str_eq c.metric breach.metric && str_eq c.workload breach.workload then some c else rest

module _ {F : Type 0} ⦃fl : Float64 F⦄ where
  -- `freshStressGuardrail`
  unfoldable pub fresh_stress_guardrail :
      Evidence F → MetricComparison F → Option (MetricComparison F)
  fresh_stress_guardrail evidence breach =
      same_reading_in (comparison_results evidence.fresh_guardrails) breach

  -- `checkReplicatedStressGuardrail`
  unfoldable pub check_replicated_stress_guardrail :
      Config F → MetricComparison F → F → Evidence F → Result F → Result F × Bool
  check_replicated_stress_guardrail config breach limit evidence result =
      if not (breached config breach limit)
      then (result, false)
      else decide_replicated_breach config
          (record {
            name = breach.metric;
            workload = breach.workload;
            limit = limit;
            reading = breach;
            on_first_series = false;
            fresh = fresh_stress_guardrail evidence breach;
          })
          result

  -- One round of the loop of `checkStressComparisons`; a reading of no configured guardrail, or
  -- one that is not usable, is passed over.
  unfoldable pub check_one_stress :
      Config F → Evidence F → MetricComparison F → Result F → Result F × Bool
  check_one_stress config evidence c result = elim (guardrail_named config c.metric) [
    | none ↦ (result, false)
    | some g ↦
        if not (measured c)
        then (result, false)
        else if replicated_guardrail g.name && config.statistical_support_required
        then check_replicated_stress_guardrail config c (guardrail_limit config g) evidence result
        else if breached config c (guardrail_limit config g)
        then (
          reject result (stress_breach_reason c (guardrail_limit config g) ++ stress_breach_note),
          true,
        )
        else (result, false)
  ]

  -- The loop of `checkStressComparisons`.
  unfoldable pub check_stress_in :
      Config F → Evidence F → List (MetricComparison F) → Result F → Result F × Bool
  check_stress_in config evidence [] result = (result, false)
  check_stress_in config evidence (c ∷ cs) result =
      let rest = check_stress_in config evidence cs result in
      let (early, done) = check_one_stress config evidence c result in
      if done then (early, true) else rest

  -- `checkStressComparisons`
  unfoldable pub check_stress_comparisons : Config F → Evidence F → Result F → Result F × Bool
  check_stress_comparisons config evidence result =
      check_stress_in config evidence (comparison_results evidence.stress_comparisons) result
