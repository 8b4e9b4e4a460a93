-- ===== src/Policy/Guardrails.antt =====
-- internal/policy/policy.go: the pooled guardrails, and the decision of a replicated breach.
use Prim.Native.String.{◌++◌}
use gotorque.Prelude.{
  String, Bool, true, false, not, ◌&&◌, Option, none, some, List, [], ◌∷◌, if◌then◌else◌, is_empty,
  str_eq,
}
use gotorque.Float64.{Float64}
use gotorque.Domain.{MetricComparison}
use gotorque.Policy.Types.{Config, Guardrail, Evidence, Result, reject, inconclusive}
use gotorque.Policy.Reasons.{
  stress_breach_note, stress_breach_reason, breach_reason, first_series_reason,
}
use gotorque.Policy.Readings.{
  ByName, index_comparisons, comparison_results, guardrail_limit, breached, replicated_guardrail,
  measured,
}

-- `replicatedBreach`; `fresh` is `none` where no fresh series was measured.
pub record ReplicatedBreach (F : Type 0) : Type 0 where
  pub name : String
  pub workload : String
  pub limit : F
  pub reading : MetricComparison F
  pub on_first_series : Bool
  pub fresh : Option (MetricComparison F)

abbrev pub is_measured : {F : Type 0} → Option (MetricComparison F) → Bool
is_measured none = false
is_measured (some c) = true

module _ {F : Type 0} ⦃fl : Float64 F⦄ where
  -- `replicatedBreach.reason`
  pub breach_text : ReplicatedBreach F → String
  breach_text b =
      if not (str_eq b.workload "")
      then stress_breach_reason b.reading b.limit
      else if b.on_first_series && is_measured b.fresh
      then first_series_reason b.name b.reading b.limit
      else breach_reason b.reading b.limit

  -- `replicatedBreach.note`
  pub breach_note : ReplicatedBreach F → String
  breach_note b = if not (str_eq b.workload "") then stress_breach_note else ""

  -- `decideReplicatedBreach`
  unfoldable pub decide_replicated_breach :
      Config F → ReplicatedBreach F → Result F → Result F × Bool
  decide_replicated_breach config b result = elim b.fresh [
    | none ↦ (reject result (breach_text b ++ breach_note b), true)
    | some fresh ↦ if not (breached config fresh b.limit) then (result, false) else (
      reject result (
          breach_text b
          ++ ", and a fresh series reproduced it at "
          ++ fl.signed fresh.delta_percent
          ++ "%"
          ++ breach_note b),
      true,
    )
  ]

  -- `freshGuardrail`
  unfoldable pub fresh_guardrail : Evidence F → String → Option (MetricComparison F)
  fresh_guardrail evidence = index_comparisons (comparison_results evidence.fresh_guardrails)

  -- `firstSeriesGuardrail`
  unfoldable pub first_series_guardrail :
      Evidence F → ByName F → String → Option (MetricComparison F)
  first_series_guardrail evidence by_name name =
      if not (is_empty evidence.first_series_guardrails)
      then index_comparisons (comparison_results evidence.first_series_guardrails) name
      else by_name name

  -- A reading that is there and past its limit.
  unfoldable pub breach_of :
      Config F → F → Option (MetricComparison F) → Option (MetricComparison F)
  breach_of config limit none = none
  breach_of config limit (some c) = if breached config c limit then some c else none

  -- The reading that breached in `checkReplicatedGuardrail`, and whether the first series read it.
  unfoldable pub replicated_reading :
      Config F → String → ByName F → Evidence F → F → Option (MetricComparison F × Bool)
  unfolding breach_of
  replicated_reading config name by_name evidence limit =
      elim (breach_of config limit (first_series_guardrail evidence by_name name)) [
        | some first ↦ some (first, true)
        | none ↦ elim (breach_of config limit (by_name name)) [
          | some pooled ↦ some (pooled, false)
          | none ↦ none
        ]
      ]

  -- `checkReplicatedGuardrail`
  unfoldable pub check_replicated_guardrail :
      Config F → String → ByName F → Evidence F → F → Result F → Result F × Bool
  check_replicated_guardrail config name by_name evidence limit result =
      elim (replicated_reading config name by_name evidence limit) [
        | none ↦ (result, false)
        | some (reading, on_first_series) ↦
            decide_replicated_breach config
              (record {
                name = name;
                workload = "";
                limit = limit;
                reading = reading;
                on_first_series = on_first_series;
                fresh = fresh_guardrail evidence name;
              })
              result
      ]

  -- `checkOneGuardrail` for a guardrail that was measured.
  unfoldable pub check_measured_guardrail :
      Config F
      → Guardrail F
      → MetricComparison F
      → ByName F
      → Evidence F
      → Result F
      → Result F × Bool
  check_measured_guardrail config g c by_name evidence result =
      let limit = guardrail_limit config g in
      if not (measured c)
      then (
        inconclusive result ("guardrail " ++ fl.quote g.name ++ " has invalid measurements"),
        true,
      )
      else if replicated_guardrail g.name && config.statistical_support_required
      then check_replicated_guardrail config g.name by_name evidence limit result
      else if not (breached config c limit)
      then (result, false)
      else (reject result (breach_reason c limit), true)

  -- `checkOneGuardrail` once its reading is looked up.
  unfoldable pub check_found_guardrail :
      Config F
      → Guardrail F
      → Option (MetricComparison F)
      → ByName F
      → Evidence F
      → Result F
      → Result F × Bool
  check_found_guardrail config g none by_name evidence result =
      if g.required
      then (inconclusive result ("required guardrail " ++ fl.quote g.name ++ " is missing"), true)
      else (result, false)
  check_found_guardrail config g (some c) by_name evidence result =
      check_measured_guardrail config g c by_name evidence result

  -- `checkOneGuardrail`
  unfoldable pub check_one_guardrail :
      Config F → Guardrail F → ByName F → Evidence F → Result F → Result F × Bool
  check_one_guardrail config g by_name evidence result =
      check_found_guardrail config g (by_name g.name) by_name evidence result

  -- `checkGuardrails`
  unfoldable pub check_guardrails :
      Config F → List (Guardrail F) → ByName F → Evidence F → Result F → Result F × Bool
  check_guardrails config [] by_name evidence result = (result, false)
  check_guardrails config (g ∷ gs) by_name evidence result =
      let rest = check_guardrails config gs by_name evidence result in
      let (early, done) = check_one_guardrail config g by_name evidence result in
      if done then (early, true) else rest
