-- ===== src/Policy/Evaluate.antt =====
-- internal/policy/policy.go: `Evaluate`, its evidence gates, and the reasons it adds for readings
-- that were over their limit and did not reject.
use gotorque.Prelude.{
  String, Bool, true, false, not, ◌&&◌, Option, none, some, List, [], ◌∷◌, ◌++◌, map, if◌then◌else◌,
  str_eq, trim_space, ◌>>=◌,
}
use gotorque.Float64.{Float64}
use gotorque.Domain.{inconclusive as is_inconclusive, MetricComparison}
use gotorque.Policy.Types.{Config, Guardrail, Evidence, Result, reject, inconclusive, with_defaults}
use gotorque.Policy.Reasons.{
  insignificant_regression, insignificant_guardrail, insignificant_stress, unreplicated_pooled,
  unreplicated_workload, unreplicated_first,
}
use gotorque.Policy.Readings.{
  ByName, index_comparisons, comparison_results, guardrail_limit, breached, replicated_guardrail,
  measured,
}
use gotorque.Policy.Improvement.{
  eligible_primary, check_eligible_regressions, unconfirmed, decide_on_improvement,
}
use gotorque.Policy.Guardrails.{
  check_guardrails, fresh_guardrail, first_series_guardrail, breach_of,
}
use gotorque.Policy.Stress.{guardrail_named, fresh_stress_guardrail, check_stress_comparisons}

-- `guardrailReading`
pub record GuardrailReading (F : Type 0) : Type 0 where
  pub name : String
  pub limit : F
  pub comparison : MetricComparison F

-- `unreplicatedBreach`
pub record UnreplicatedBreach (F : Type 0) : Type 0 where
  pub name : String
  pub limit : F
  pub comparison : MetricComparison F
  pub fresh : MetricComparison F
  pub pooled : Bool

-- The values that a loop with `append` collects.
abbrev pub collect : {A B : Type 0} → (A → Option B) → List A → List B
collect f [] = []
collect f (x ∷ xs) = let rest = collect f xs in elim (f x) [ none ↦ rest | some y ↦ y ∷ rest ]

module _ {F : Type 0} ⦃fl : Float64 F⦄ where
  -- `evidenceGates`
  unfoldable pub evidence_gates : Result F → Evidence F → Result F × Bool
  evidence_gates result evidence =
      if not evidence.behavior_matches
      then (let summary = trim_space evidence.failure_summary in
          if not (str_eq summary "")
          then (reject result summary, true)
          else (reject result "behavior does not match the baseline after normalization", true))
      else if not evidence.safety_checks_passed
      then (reject result "a required safety or validation check failed", true)
      else if not evidence.representative_evidence
      then (inconclusive result "no representative workload evidence is available", true)
      else (result, false)

  -- One round of the loop of `unconfirmedGuardrails`.
  unfoldable pub unconfirmed_guardrail :
      Config F → ByName F → Guardrail F → Option (GuardrailReading F)
  unconfirmed_guardrail config by_name g = elim (by_name g.name) [
    | none ↦ none
    | some c ↦
        if fl.lt (guardrail_limit config g) c.delta_percent && not c.significant
        then some (record { name = g.name; limit = guardrail_limit config g; comparison = c })
        else none
  ]

  -- `unconfirmedGuardrails`
  unfoldable pub unconfirmed_guardrails : Config F → ByName F → List (GuardrailReading F)
  unconfirmed_guardrails config by_name =
      if not config.statistical_support_required
      then []
      else collect (unconfirmed_guardrail config by_name) config.guardrails

  -- One round of the loop of `unconfirmedStress`.
  unfoldable pub unconfirmed_stress_one :
      Config F → MetricComparison F → Option (GuardrailReading F)
  unconfirmed_stress_one config c = elim (guardrail_named config c.metric) [
    | none ↦ none
    | some g ↦
        if measured c
          && config.statistical_support_required
          && fl.lt (guardrail_limit config g) c.delta_percent
          && not c.significant
        then some (record { name = g.name; limit = guardrail_limit config g; comparison = c })
        else none
  ]

  -- `unconfirmedStress`
  unfoldable pub unconfirmed_stress :
      Config F → List (MetricComparison F) → List (GuardrailReading F)
  unconfirmed_stress config comparisons =
      collect (unconfirmed_stress_one config) (comparison_results comparisons)

  -- One round of the loop of `unreplicatedStress`.
  unfoldable pub unreplicated_stress_one :
      Config F → Evidence F → MetricComparison F → Option (UnreplicatedBreach F)
  unreplicated_stress_one config evidence c = elim (guardrail_named config c.metric) [
    | none ↦ none
    | some g ↦
        if replicated_guardrail g.name && breached config c (guardrail_limit config g)
        then elim (fresh_stress_guardrail evidence c) [
          | none ↦ none
          | some fresh ↦
              if breached config fresh (guardrail_limit config g)
              then none
              else some (record {
                name = g.name;
                limit = guardrail_limit config g;
                comparison = c;
                fresh = fresh;
                pooled = false;
              })
        ]
        else none
  ]

  -- `unreplicatedStress`
  unfoldable pub unreplicated_stress : Config F → Evidence F → List (UnreplicatedBreach F)
  unreplicated_stress config evidence =
      if not config.statistical_support_required
      then []
      else collect (unreplicated_stress_one config evidence)
          (comparison_results evidence.stress_comparisons)

  -- `unreplicatedGuardrail`
  unfoldable pub unreplicated_guardrail :
      Config F → Guardrail F → ByName F → Evidence F → Option (UnreplicatedBreach F)
  unreplicated_guardrail config g by_name evidence =
      let limit = guardrail_limit config g in
      let breach = λ (c : MetricComparison F) (fresh : MetricComparison F) (pooled : Bool).
        let b : UnreplicatedBreach F = record {
          name = g.name;
          limit = limit;
          comparison = c;
          fresh = fresh;
          pooled = pooled;
        } in
        b in
      elim (fresh_guardrail evidence g.name) [
        | none ↦ none
        | some fresh ↦
            if breached config fresh limit
            then none
            else elim (breach_of config limit (first_series_guardrail evidence by_name g.name)) [
              | some first ↦ some (breach first fresh false)
              | none ↦ elim (breach_of config limit (by_name g.name)) [
                | some pooled ↦ some (breach pooled fresh true)
                | none ↦ none
              ]
            ]
      ]

  -- `unreplicatedGuardrails`
  unfoldable pub unreplicated_guardrails :
      Config F → ByName F → Evidence F → List (UnreplicatedBreach F)
  unreplicated_guardrails config by_name evidence =
      if not config.statistical_support_required
      then []
      else collect
          (λ g.
            if replicated_guardrail g.name
            then unreplicated_guardrail config g by_name evidence
            else none)
          config.guardrails

  -- `unreplicatedReason`
  pub unreplicated_reason : UnreplicatedBreach F → String
  unreplicated_reason b =
      if b.pooled
      then unreplicated_pooled b.name b.comparison b.limit b.fresh
      else if not (str_eq b.comparison.workload "")
      then unreplicated_workload b.name b.comparison b.limit b.fresh
      else unreplicated_first b.name b.comparison b.limit b.fresh

  -- `noteUnactedReadings`
  unfoldable pub note_unacted_readings :
      Config F → Evidence F → ByName F → List (MetricComparison F) → Result F → Result F
  note_unacted_readings config evidence by_name eligible result = record result {
    reasons =
        result.reasons
        ++ (map (insignificant_regression config) (unconfirmed config eligible)
            ++ (map
                  (λ (r : GuardrailReading F). insignificant_guardrail r.name r.comparison r.limit)
                  (unconfirmed_guardrails config by_name)
                ++ (map
                      (λ (r : GuardrailReading F). insignificant_stress r.name r.comparison r.limit)
                      (unconfirmed_stress config evidence.stress_comparisons)
                    ++ (map unreplicated_reason (unreplicated_stress config evidence)
                        ++ map unreplicated_reason
                            (unreplicated_guardrails config by_name evidence)))));
  }

  -- `Evaluate` once the eligible readings are known.
  unfoldable pub judge :
      Config F → Evidence F → List (MetricComparison F) → Result F → Option (Result F)
  judge config evidence eligible result =
      let by_name = index_comparisons result.comparisons in
      let (rail, rail_done) = check_guardrails config config.guardrails by_name evidence result in
      let (regression, regression_done) = check_eligible_regressions config eligible result in
      let (stress, stress_done) = check_stress_comparisons config evidence result in
      if rail_done
      then some rail
      else if regression_done
      then some regression
      else if stress_done
      then some stress
      else (decide_on_improvement config eligible result >>= λ decided.
          some (note_unacted_readings config evidence by_name eligible decided))

  -- The result that `Evaluate` begins with.
  abbrev pub initial_result : Evidence F → Result F
  initial_result evidence = record {
    decision = is_inconclusive;
    comparisons = comparison_results evidence.comparisons;
    reasons = [];
  }

  -- `Evaluate` after the defaults are filled in.
  unfoldable pub evaluate_filled : Config F → Evidence F → Option (Result F)
  unfolding evidence_gates
  evaluate_filled config evidence =
      let result = initial_result evidence in
      let (early, done) = evidence_gates result evidence in
      let (eligible, updated) = eligible_primary config evidence result in
      if done then some early else elim eligible [
        | none ↦ some updated
        | some readings ↦ judge config evidence readings updated
      ]

  -- `Evaluate`; `none` is the panic of an index out of range.
  unfoldable pub evaluate : Config F → Evidence F → Option (Result F)
  unfolding evaluate_filled
  evaluate config evidence = evaluate_filled (with_defaults config) evidence
