-- ===== src/Policy/Improvement.antt =====
-- internal/policy/policy.go: the eligible readings, their regressions, and the improvement that an
-- accept rests on.
use Prim.Native.String.{◌++◌}
use gotorque.Prelude.{
  Bool, true, false, not, ◌&&◌, ◌||◌, Option, none, some, List, [], ◌∷◌, foldl, if◌then◌else◌,
  is_empty, keep, ◌>>=◌,
}
use gotorque.Float64.{Float64, finite}
use gotorque.Domain.{accepted, MetricComparison}
use gotorque.Policy.Types.{Config, Evidence, Result, reject, inconclusive}
use gotorque.Policy.Reasons.{has_robust_shift, estimator_note, acceptance_subject, reading_subject}
use gotorque.Policy.Readings.{ByName, index_comparisons, comparison_results, over_limit, measured}

-- The three values of `deltaDirection`: -1, 1 and 0.
pub data Direction : Type 0 where
  improving regressing level : Direction

abbrev same_direction : Direction → Direction → Bool
same_direction improving improving = true
same_direction regressing regressing = true
same_direction level level = true
same_direction _ _ = false

module _ {F : Type 0} ⦃fl : Float64 F⦄ where
  -- `ImprovementDelta`
  unfoldable pub improvement_delta : MetricComparison F → F
  improvement_delta c = if has_robust_shift c then c.shift_percent else c.delta_percent

  -- `deltaDirection`
  unfoldable pub delta_direction : F → Direction
  delta_direction delta =
      if fl.lt delta (fl.whole 0)
      then improving
      else if fl.lt (fl.whole 0) delta
      then regressing
      else level

  -- `estimatorsAgree`
  unfoldable pub estimators_agree : MetricComparison F → Bool
  estimators_agree c =
      if not (has_robust_shift c)
      then true
      else if not (finite c.delta_percent)
      then false
      else same_direction (delta_direction c.delta_percent) (delta_direction c.shift_percent)

  -- `improvedAtLeastMinimum`
  unfoldable pub improved_at_least_minimum : Config F → MetricComparison F → Bool
  improved_at_least_minimum config c =
      estimators_agree c
      && finite (improvement_delta c)
      && fl.le config.minimum_improvement_percent (fl.neg (improvement_delta c))

  -- One round of the loop of `bestImprovement`.
  unfoldable pub better_of :
      MetricComparison F × Bool → MetricComparison F → MetricComparison F × Bool
  better_of (best, supported) c =
      if fl.lt (improvement_delta c) (improvement_delta best)
        || (c.statistically_fit && not supported)
      then (c, c.statistically_fit)
      else (best, supported)

  -- The loop over `candidates`; `candidates[0]` of an empty slice panics.
  unfoldable pub best_of : List (MetricComparison F) → Option (MetricComparison F × Bool)
  unfolding better_of
  best_of [] = none
  best_of (c ∷ cs) = some (foldl better_of (c, c.statistically_fit) cs)

  -- The candidates: the readings whose estimators agree, or all where none does.
  unfoldable pub candidates_of : List (MetricComparison F) → List (MetricComparison F)
  candidates_of eligible =
      let agreeing = keep estimators_agree eligible in
      if is_empty agreeing then eligible else agreeing

  -- `bestImprovement`
  unfoldable pub best_improvement : List (MetricComparison F) → Option (MetricComparison F × Bool)
  unfolding best_of candidates_of
  best_improvement eligible = best_of (candidates_of eligible)

  -- `decideOnImprovement` once the best reading is known.
  unfoldable pub decide_on_best : Config F → Result F → MetricComparison F × Bool → Result F
  decide_on_best config result (best, supported) =
      let improvement = fl.neg (improvement_delta best) in
      if not supported
      then inconclusive result (
          "no acceptance-eligible measurement has a statistically supported "
          ++ fl.quote config.primary_metric
          ++ " improvement (best "
          ++ fl.fixed improvement
          ++ "%"
          ++ estimator_note best
          ++ ")")
      else if fl.lt improvement config.minimum_improvement_percent
      then inconclusive result (
          "best acceptance-eligible measurement improved by "
          ++ fl.fixed improvement
          ++ "%"
          ++ estimator_note best
          ++ ", below the "
          ++ fl.fixed config.minimum_improvement_percent
          ++ "% threshold")
      else if not (estimators_agree best)
      then inconclusive result (
          "best acceptance-eligible measurement reads "
          ++ fl.fixed improvement
          ++ "%"
          ++ estimator_note best
          ++ " beside a mean delta of "
          ++ fl.signed best.delta_percent
          ++ "%, so the two estimators disagree on whether it improved")
      else record result {
        decision = accepted;
        reasons =
            (acceptance_subject best
              ++ " improved by "
              ++ fl.fixed improvement
              ++ "%"
              ++ estimator_note best
              ++ " with required evidence and no guardrail regression")
            ∷ [];
      }

  -- `decideOnImprovement`
  unfoldable pub decide_on_improvement :
      Config F → List (MetricComparison F) → Result F → Option (Result F)
  decide_on_improvement config eligible result =
      best_improvement eligible >>= λ b. some (decide_on_best config result b)

  -- `lookupPrimary`: the reading, or the result that ends the evaluation.
  unfoldable pub lookup_primary :
      Config F → ByName F → Result F → Option (MetricComparison F) × Result F
  lookup_primary config by_name result = elim (by_name config.primary_metric) [
    | none ↦ (
      none,
      inconclusive result ("primary metric " ++ fl.quote config.primary_metric ++ " is missing"),
    )
    | some primary ↦
        if config.statistical_support_required && not primary.statistically_fit
        then (
          none,
          inconclusive result (
              "primary metric "
              ++ fl.quote config.primary_metric
              ++ " is not statistically supported"),
        )
        else if not (measured primary)
        then (
          none,
          inconclusive result
              ("primary metric " ++ fl.quote config.primary_metric ++ " has invalid measurements"),
        )
        else (some primary, result)
  ]

  -- `eligiblePrimary`: the eligible readings, or `none` where the evaluation ends. Its second test
  -- for an empty list cannot succeed, since the list is as long as `Primary`, and is written out.
  unfoldable pub eligible_primary :
      Config F → Evidence F → Result F → Option (List (MetricComparison F)) × Result F
  eligible_primary config evidence result =
      if is_empty evidence.primary
      then (let (primary, updated) =
            lookup_primary config (index_comparisons result.comparisons) result in
          elim primary [ none ↦ (none, updated) | some p ↦ (some (p ∷ []), updated) ])
      else (let eligible = comparison_results evidence.primary in
          if is_empty eligible
          then (
            none,
            inconclusive result
                ("primary metric " ++ fl.quote config.primary_metric ++ " is missing"),
          )
          else (some eligible, result))

  -- `checkEligibleRegressions`
  unfoldable pub check_eligible_regressions :
      Config F → List (MetricComparison F) → Result F → Result F × Bool
  check_eligible_regressions config [] result = (result, false)
  check_eligible_regressions config (c ∷ cs) result =
      let rest = check_eligible_regressions config cs result in
      if not (measured c)
      then (inconclusive result (reading_subject c ++ " has invalid measurements"), true)
      else if over_limit config c && (c.significant || not config.statistical_support_required)
      then (
        reject result (
            reading_subject c
            ++ " regressed by "
            ++ fl.signed c.delta_percent
            ++ "%, over the "
            ++ fl.fixed config.maximum_guardrail_regression_percent
            ++ "% limit"),
        true,
      )
      else rest

  -- `unconfirmed`
  unfoldable pub unconfirmed : Config F → List (MetricComparison F) → List (MetricComparison F)
  unconfirmed config eligible =
      if not config.statistical_support_required
      then []
      else keep (λ c. over_limit config c && not c.significant) eligible
