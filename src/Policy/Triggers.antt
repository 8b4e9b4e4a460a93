-- ===== src/Policy/Triggers.antt =====
-- internal/policy/policy.go: what the engine asks before a verdict, to measure again.
use gotorque.Prelude.{
  String, Bool, not, ◌&&◌, ◌||◌, Option, none, some, List, [], ◌∷◌, map, if◌then◌else◌, str_eq,
  is_empty, keep, ◌>>=◌,
}
use gotorque.Float64.{Float64}
use gotorque.Domain.{MetricComparison}
use gotorque.Policy.Types.{Config, Guardrail, with_defaults}
use gotorque.Policy.Readings.{
  ByName, index_comparisons, comparison_results, guardrail_limit, breached, replicated_guardrail,
}
use gotorque.Policy.Improvement.{
  improvement_delta, improved_at_least_minimum, best_improvement, unconfirmed,
}
use gotorque.Policy.Stress.{guardrail_named, named_in}
use gotorque.Policy.Evaluate.{GuardrailReading, unconfirmed_guardrails, collect}

module _ {F : Type 0} ⦃fl : Float64 F⦄ where
  -- `UnconfirmedRegressions`
  unfoldable pub unconfirmed_regressions :
      Config F → List (MetricComparison F) → List (MetricComparison F)
  unconfirmed_regressions config eligible =
      unconfirmed (with_defaults config) (comparison_results eligible)

  -- `UnconfirmedGuardrails`
  unfoldable pub unconfirmed_guardrail_readings :
      Config F → List (MetricComparison F) → List (MetricComparison F)
  unconfirmed_guardrail_readings config comparisons =
      map (λ (r : GuardrailReading F). r.comparison)
        (unconfirmed_guardrails (with_defaults config)
          (index_comparisons (comparison_results comparisons)))

  -- `UnconfirmedImprovements`
  unfoldable pub unconfirmed_improvements :
      Config F → List (MetricComparison F) → List (MetricComparison F)
  unconfirmed_improvements given eligible =
      let config = with_defaults given in
      if not config.statistical_support_required
      then []
      else keep (λ c. improved_at_least_minimum config c && not c.statistically_fit)
          (comparison_results eligible)

  -- The test of `BorderlineImprovements`, with `borderlineFactor`.
  unfoldable pub borderline_best : Config F → MetricComparison F × Bool → List (MetricComparison F)
  borderline_best config (best, supported) =
      if not supported
        || not (improved_at_least_minimum config best)
        || fl.le (fl.mul (fl.whole 2) config.minimum_improvement_percent)
            (fl.neg (improvement_delta best))
      then []
      else best ∷ []

  -- `BorderlineImprovements`; with no eligible reading it panics, `none`.
  unfoldable pub borderline_improvements :
      Config F → List (MetricComparison F) → Option (List (MetricComparison F))
  borderline_improvements given eligible =
      let config = with_defaults given in
      if not config.statistical_support_required
      then some []
      else (best_improvement (comparison_results eligible) >>= λ b. some (borderline_best config b))

  -- The test of `SelectedImprovements`.
  unfoldable pub selected_best : Config F → MetricComparison F × Bool → List (MetricComparison F)
  selected_best config (best, supported) =
      if not supported || str_eq best.workload "" || not (improved_at_least_minimum config best)
      then []
      else best ∷ []

  -- `SelectedImprovements`
  unfoldable pub selected_improvements :
      Config F → List (MetricComparison F) → Option (List (MetricComparison F))
  selected_improvements given eligible =
      let config = with_defaults given in
      if not config.statistical_support_required || is_empty eligible
      then some []
      else (best_improvement (comparison_results eligible) >>= λ b. some (selected_best config b))

  -- `ReplicatedGuardrails`
  unfoldable pub replicated_guardrails :
      Config F → List (MetricComparison F) → List (MetricComparison F)
  replicated_guardrails given comparisons =
      let config = with_defaults given in
      let by_name = index_comparisons (comparison_results comparisons) in
      collect
        (λ (g : Guardrail F). if not (replicated_guardrail g.name) then none else by_name g.name)
        config.guardrails

  -- The test of `GuardrailsToReplicate` on the reading of a guardrail.
  unfoldable pub significant_breach :
      Config F → Guardrail F → Option (MetricComparison F) → Option (MetricComparison F)
  significant_breach config g none = none
  significant_breach config g (some c) =
      if fl.lt (guardrail_limit config g) c.delta_percent && c.significant then some c else none

  -- One round of the loop of `GuardrailsToReplicate`.
  unfoldable pub guardrail_to_replicate :
      Config F → ByName F → Guardrail F → Option (MetricComparison F)
  guardrail_to_replicate config by_name g =
      if not (replicated_guardrail g.name)
      then none
      else significant_breach config g (by_name g.name)

  -- `GuardrailsToReplicate`
  unfoldable pub guardrails_to_replicate :
      Config F → List (MetricComparison F) → List (MetricComparison F)
  guardrails_to_replicate given comparisons =
      let config = with_defaults given in
      let by_name = index_comparisons (comparison_results comparisons) in
      if not config.statistical_support_required
      then []
      else collect (guardrail_to_replicate config by_name) config.guardrails

  -- One round of the loop of `StressGuardrailsToReplicate`.
  unfoldable pub stress_to_replicate : Config F → MetricComparison F → Option (MetricComparison F)
  stress_to_replicate config c = elim (guardrail_named config c.metric) [
    | none ↦ none
    | some g ↦
        if replicated_guardrail g.name && breached config c (guardrail_limit config g)
        then some c
        else none
  ]

  -- `StressGuardrailsToReplicate`
  unfoldable pub stress_guardrails_to_replicate :
      Config F → List (MetricComparison F) → List (MetricComparison F)
  stress_guardrails_to_replicate given comparisons =
      let config = with_defaults given in
      if not config.statistical_support_required
      then []
      else collect (stress_to_replicate config) (comparison_results comparisons)

  -- `RegressionLimit`
  unfoldable pub regression_limit : Config F → String → F
  regression_limit given metric =
      let config = with_defaults given in
      elim (named_in config.guardrails metric) [
        | none ↦ config.maximum_guardrail_regression_percent
        | some g ↦ guardrail_limit config g
      ]
