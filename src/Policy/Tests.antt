-- ===== src/Policy/Tests.antt =====
-- internal/policy/policy.go: the decision on sample evidence, and the theorems at inputs that meet
-- their hypotheses. The numbers are fixed-point decimals.
use gotorque.Prelude.{
  Option, keep, trim_space, true, false, [], ◌∷◌, some, none, ◌≡◌, refl, ◌⊎◌, ◌↔◌, All, map,
}
use gotorque.Float64.{finite, finite_positive}
use gotorque.Float64.Fixed.{Num, fixed_float}
use gotorque.Domain.{Decision, accepted, rejected, MetricComparison}
use gotorque.Policy.Types.{Evidence, Result, default_config, with_defaults, reject, inconclusive}
use gotorque.Policy.Reasons.{has_robust_shift}
use gotorque.Policy.Readings.{
  sorts_before, insert_sorted, sort_stable, index_one, index_comparisons, replicated_guardrail,
  mean_delta, with_delta, comparison_results, guardrail_limit, breached, over_limit,
}
use gotorque.Policy.Improvement.{
  improvement_delta, delta_direction, estimators_agree, better_of, best_of, candidates_of,
  best_improvement, decide_on_best, decide_on_improvement, lookup_primary, eligible_primary,
  check_eligible_regressions, unconfirmed, improved_at_least_minimum,
}
use gotorque.Policy.Guardrails.{
  decide_replicated_breach, fresh_guardrail, first_series_guardrail, breach_of, replicated_reading,
  check_replicated_guardrail, check_measured_guardrail, check_found_guardrail, check_one_guardrail,
  check_guardrails,
}
use gotorque.Policy.Stress.{
  named_in, guardrail_named, same_reading_in, fresh_stress_guardrail,
  check_replicated_stress_guardrail, check_one_stress, check_stress_in, check_stress_comparisons,
}
use gotorque.Policy.Evaluate.{
  evidence_gates, unconfirmed_guardrail, unconfirmed_guardrails, unconfirmed_stress_one,
  unconfirmed_stress, unreplicated_stress_one, unreplicated_stress, unreplicated_guardrail,
  unreplicated_guardrails, note_unacted_readings, judge, evaluate_filled, evaluate,
}
use gotorque.Policy.Triggers.{
  borderline_improvements, borderline_best, selected_improvements, selected_best,
  guardrails_to_replicate, guardrail_to_replicate, significant_breach,
}
use gotorque.Policy.Laws.Verdict.{Supports, evaluate-accepted_iff}
use gotorque.Policy.Laws.Rails.{replicates, ReplicatedHolds}
use gotorque.Policy.Laws.Order.{InOrder, is_of, remeasured, comparison_results_lem}
use gotorque.Policy.Laws.Triggers.{guardrails_to_replicate-holds}
use gotorque.Policy.Laws.Veto.{decided, without_stress, evaluate-stress_vetoes, evaluate-incomplete}
use gotorque.Policy.Samples.{reading, pooled, evidence}

-- The verdict on an evidence; to unfold it is to unfold all that the evaluation calls.
verdict : Evidence Num → Option (Result Num)
unfolding evaluate evaluate_filled evidence_gates trim_space judge with_defaults default_config
    eligible_primary lookup_primary index_comparisons index_one comparison_results sort_stable
    insert_sorted sorts_before with_delta mean_delta finite finite_positive check_guardrails
    check_one_guardrail check_found_guardrail check_measured_guardrail check_replicated_guardrail
    replicated_reading decide_replicated_breach breach_of first_series_guardrail fresh_guardrail
    guardrail_limit breached over_limit replicated_guardrail check_eligible_regressions
    check_stress_comparisons check_stress_in check_one_stress check_replicated_stress_guardrail
    fresh_stress_guardrail same_reading_in guardrail_named named_in decide_on_improvement
    decide_on_best best_improvement best_of better_of candidates_of estimators_agree delta_direction
    improvement_delta has_robust_shift note_unacted_readings unconfirmed unconfirmed_guardrails
    unconfirmed_guardrail unconfirmed_stress unconfirmed_stress_one unreplicated_stress
    unreplicated_stress_one unreplicated_guardrails unreplicated_guardrail reject inconclusive
verdict given = evaluate default_config given

abbrev win : MetricComparison Num
win = reading "wall_time_ns" "" 100 90 true

abbrev fast : MetricComparison Num
fast = reading "wall_time_ns" "large" 100 80 false

abbrev slow : MetricComparison Num
slow = reading "wall_time_ns" "large" 100 110 false

-- The readings with their deltas.
abbrev win' : MetricComparison Num
unfolding verdict
win' = with_delta win

abbrev fast' : MetricComparison Num
unfolding verdict
fast' = with_delta fast

abbrev slow' : MetricComparison Num
unfolding verdict
slow' = with_delta slow

abbrev mismatch : Evidence Num
mismatch = record evidence { behavior_matches = false }

accepts : decided (evaluate default_config evidence) ≡ some accepted
unfolding verdict
accepts = refl

-- The pooled win is supported, and one workload reads a larger win without support.
abbrev split_evidence : Evidence Num
split_evidence = record evidence { primary = win ∷ fast ∷ [] }

supported_win_dropped :
    decided (evaluate default_config split_evidence) ≡ some Decision.inconclusive
unfolding verdict
supported_win_dropped = refl

behavior_first :
    decided (evaluate default_config (record evidence { behavior_matches = false })) ≡ some rejected
unfolding verdict
behavior_first = refl

abbrev sample_result : Result Num
unfolding verdict
sample_result = elim (evaluate default_config evidence) [
  | some r ↦ r
  | none ↦ record { decision = rejected; comparisons = []; reasons = [] }
]

evaluate-accepted_iff_example :
    (r : Result Num) × (evaluate default_config evidence ≡ some r)
    × ((r.decision ≡ accepted) ↔ Supports (with_defaults default_config) evidence)
evaluate-accepted_iff_example = evaluate-accepted_iff default_config evidence

evaluate-stress_vetoes_example :
    (r : Result Num) × (evaluate default_config (without_stress evidence) ≡ some r)
    × (r.decision ≡ accepted)
unfolding verdict
evaluate-stress_vetoes_example =
    evaluate-stress_vetoes default_config evidence sample_result refl refl

evaluate-incomplete_example : decided (evaluate default_config mismatch) ≡ some rejected
evaluate-incomplete_example = evaluate-incomplete default_config mismatch refl

comparison_results_lem_example :
    InOrder (comparison_results pooled)
    × (keep (is_of "wall_time_ns" "") (comparison_results pooled)
        ≡ keep (is_of "wall_time_ns" "") (map remeasured pooled))
    × (comparison_results (comparison_results pooled) ≡ comparison_results pooled)
comparison_results_lem_example = comparison_results_lem pooled "wall_time_ns" ""

-- A candidate whose win is below twice the minimum, on one workload.
abbrev narrow : MetricComparison Num
narrow = reading "wall_time_ns" "small" 100 95 true

abbrev narrow' : MetricComparison Num
unfolding verdict
narrow' = with_delta narrow

-- Both triggers ask for that reading.
narrow_is_measured_again :
    (borderline_improvements default_config (narrow ∷ []) ≡ some (narrow' ∷ []))
    × (selected_improvements default_config (narrow ∷ []) ≡ some (narrow' ∷ []))
unfolding verdict borderline_improvements borderline_best selected_improvements selected_best
    improved_at_least_minimum
narrow_is_measured_again = (refl, refl)

guardrails_to_replicate-holds_example :
    All
      (λ g.
        (replicates (with_defaults default_config) g ≡ false)
        ⊎ ReplicatedHolds
            (with_defaults default_config)
            (index_comparisons (comparison_results pooled))
            evidence
            g)
      (with_defaults (default_config {F = Num})).guardrails
unfolding verdict guardrails_to_replicate guardrail_to_replicate significant_breach
guardrails_to_replicate-holds_example =
    guardrails_to_replicate-holds default_config evidence refl refl refl

-- With no eligible reading `BorderlineImprovements` indexes an empty slice.
borderline_panics : borderline_improvements {F = Num} default_config [] ≡ none
unfolding verdict borderline_improvements
borderline_panics = refl
