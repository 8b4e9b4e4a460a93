-- ===== src/Policy/Reasons.antt =====
-- internal/policy/policy.go: the sentences of a verdict (`stressBreachReason`, `breachReason`,
-- `replicatedBreach.reason`, `unreplicatedReason`, `estimatorNote` and the calls of `Sprintf`).
use Prim.Native.String.{◌++◌}
use gotorque.Prelude.{String, Bool, ◌&&◌, if◌then◌else◌, str_eq}
use gotorque.Float64.{Float64, finite}
use gotorque.Domain.{MetricComparison}
use gotorque.Policy.Types.{Config}

-- `stressBreachNote`
abbrev pub stress_breach_note : String
stress_breach_note =
    "; the manifest keeps that workload out of acceptance, so it can veto a candidate but never carry one"

module _ {F : Type 0} ⦃fl : Float64 F⦄ where
  -- `hasRobustShift`, with `ShiftHodgesLehmann` of internal/domain/types.go
  unfoldable pub has_robust_shift : MetricComparison F → Bool
  has_robust_shift c = str_eq c.shift "hodges_lehmann" && finite c.shift_percent

  -- `estimatorNote`
  pub estimator_note : MetricComparison F → String
  estimator_note c = if has_robust_shift c then " (Hodges–Lehmann shift)" else ""

  -- `readingSubject`
  pub reading_subject : MetricComparison F → String
  reading_subject c =
      if str_eq c.workload "" then "the pooled " ++ c.metric else "workload " ++ fl.quote c.workload

  -- `acceptanceSubject`
  pub acceptance_subject : MetricComparison F → String
  acceptance_subject c =
      if str_eq c.workload "" then "primary metric" else "workload " ++ fl.quote c.workload

  -- `stressBreachReason`
  pub stress_breach_reason : MetricComparison F → F → String
  stress_breach_reason c limit =
      "guardrail "
      ++ fl.quote c.metric
      ++ " regressed by "
      ++ fl.fixed c.delta_percent
      ++ "% on workload "
      ++ fl.quote c.workload
      ++ ", over the "
      ++ fl.fixed limit
      ++ "% limit"

  -- `breachReason`
  pub breach_reason : MetricComparison F → F → String
  breach_reason c limit =
      "guardrail "
      ++ fl.quote c.metric
      ++ " regressed by "
      ++ fl.fixed c.delta_percent
      ++ "%, over the "
      ++ fl.fixed limit
      ++ "% limit"

  -- The reason of `replicatedBreach.reason` for a breach that the first series had read.
  pub first_series_reason : String → MetricComparison F → F → String
  first_series_reason name c limit =
      "guardrail "
      ++ fl.quote name
      ++ " read "
      ++ fl.signed c.delta_percent
      ++ "% on the first series, over the "
      ++ fl.fixed limit
      ++ "% limit and significant"

  -- The reasons of `noteUnactedReadings`.
  pub insignificant_regression : Config F → MetricComparison F → String
  insignificant_regression config c =
      reading_subject c
      ++ " read "
      ++ fl.signed c.delta_percent
      ++ "%, over the "
      ++ fl.fixed config.maximum_guardrail_regression_percent
      ++ "% limit, but the difference is not statistically significant"

  pub insignificant_guardrail : String → MetricComparison F → F → String
  insignificant_guardrail name c limit =
      "guardrail "
      ++ fl.quote name
      ++ " read "
      ++ fl.signed c.delta_percent
      ++ "%, over the "
      ++ fl.fixed limit
      ++ "% limit, but the difference is not statistically significant"

  pub insignificant_stress : String → MetricComparison F → F → String
  insignificant_stress name c limit =
      "guardrail "
      ++ fl.quote name
      ++ " read "
      ++ fl.signed c.delta_percent
      ++ "% on workload "
      ++ fl.quote c.workload
      ++ ", over the "
      ++ fl.fixed limit
      ++ "% limit, but the difference is not statistically significant; that workload cannot carry a verdict"

  -- The three sentences of `unreplicatedReason`.
  pub unreplicated_pooled : String → MetricComparison F → F → MetricComparison F → String
  unreplicated_pooled name c limit fresh =
      "guardrail "
      ++ fl.quote name
      ++ " read "
      ++ fl.signed c.delta_percent
      ++ "% over the "
      ++ fl.fixed limit
      ++ "% limit and significant only once the fresh series was pooled in, but that series read "
      ++ fl.signed fresh.delta_percent
      ++ "% and did not reproduce the breach"

  pub unreplicated_workload : String → MetricComparison F → F → MetricComparison F → String
  unreplicated_workload name c limit fresh =
      "guardrail "
      ++ fl.quote name
      ++ " regressed by "
      ++ fl.fixed c.delta_percent
      ++ "% on workload "
      ++ fl.quote c.workload
      ++ ", over the "
      ++ fl.fixed limit
      ++ "% limit and significant, but a fresh series read "
      ++ fl.signed fresh.delta_percent
      ++ "% and did not reproduce the breach"
      ++ stress_breach_note

  pub unreplicated_first : String → MetricComparison F → F → MetricComparison F → String
  unreplicated_first name c limit fresh =
      "guardrail "
      ++ fl.quote name
      ++ " read "
      ++ fl.signed c.delta_percent
      ++ "% on the first series, over the "
      ++ fl.fixed limit
      ++ "% limit and significant, but a fresh series read "
      ++ fl.signed fresh.delta_percent
      ++ "% and did not reproduce the breach"
