-- ===== src/Policy/Laws/Verdict.antt =====
-- internal/policy/policy.go: `Evaluate`, its verdict against the evidence.
use gotorque.Prelude.{
  Bool, true, false, Option, none, some, List, ◌≡◌, sym, ap, ◌∙◌, ◌↔◌, inl, inr, ◌≢◌, All, is_empty,
  arith, Bool-cases,
}
use mathlib.Core.Path.{subst}
use mathlib.Core.Option.{some-injective}
use gotorque.Float64.{Float64}
use gotorque.Domain.{accepted, MetricComparison}
use gotorque.Policy.Types.{Config, Evidence, Result, reject, inconclusive, with_defaults}
use gotorque.Policy.Readings.{index_comparisons, comparison_results}
use gotorque.Policy.Improvement.{
  best_improvement, eligible_primary, check_eligible_regressions, decide_on_best,
  decide_on_improvement,
}
use gotorque.Policy.Guardrails.{check_guardrails}
use gotorque.Policy.Stress.{check_stress_comparisons}
use gotorque.Policy.Evaluate.{
  evidence_gates, note_unacted_readings, judge, initial_result, evaluate_filled, evaluate,
}
use gotorque.Policy.Laws.Rails.{RailPasses, Outcome, rails-Outcome}
use gotorque.Policy.Laws.Readings.{ReadingPasses, regressions-Outcome, StressPasses, stress-Outcome}
use gotorque.Policy.Laws.Best.{Accepts, best_improvement_total, decide_on_best-accepted}
use gotorque.Policy.Laws.Eligible.{
  IsEligible, eligible_primary-cases, eligible_primary_of_IsEligible,
}

module _ {F : Type 0} ⦃fl : Float64 F⦄ where
  -- The readings pass every check, and the best of the eligible ones is a win.
  pub record Passes (config : Config F) (evidence : Evidence F)
      (eligible : List (MetricComparison F)) : Type 0 where
    pub rails :
        All
          (RailPasses config (index_comparisons (comparison_results evidence.comparisons)) evidence)
          config.guardrails
    pub readings : All (ReadingPasses config) eligible
    pub stress : All (StressPasses config evidence) (comparison_results evidence.stress_comparisons)
    pub best : MetricComparison F × Bool
    pub is_best : best_improvement eligible ≡ some best
    pub wins : Accepts config best

  -- The evidence is complete, and its eligible readings pass.
  abbrev pub Supports : Config F → Evidence F → Type 0
  Supports config evidence =
      (evidence.behavior_matches ≡ true)
      × (evidence.safety_checks_passed ≡ true)
      × (evidence.representative_evidence ≡ true)
      × ((eligible : List (MetricComparison F)) × IsEligible config evidence
            (initial_result evidence) eligible
          × (is_empty eligible ≡ false)
          × Passes config evidence eligible)

  -- The verdict on eligible readings: it is reached, and it accepts exactly when they pass.
  abbrev pub IsJudged :
      Config F → Evidence F → List (MetricComparison F) → Option (Result F) → Type 0
  IsJudged config evidence eligible verdict =
      (r : Result F) × (verdict ≡ some r)
      × (Passes config evidence eligible → r.decision ≡ accepted)
      × (r.decision ≡ accepted → Passes config evidence eligible)

  judge-IsJudged :
      (config : Config F) (evidence : Evidence F) (eligible : List (MetricComparison F))
      → is_empty eligible ≡ false
      → IsJudged config evidence eligible (judge config evidence eligible (initial_result evidence))
  unfolding judge decide_on_improvement note_unacted_readings
  judge-IsJudged config evidence eligible h =
      let result = initial_result evidence in
      let by_name = index_comparisons result.comparisons in
      let rails = rails-Outcome config by_name evidence config.guardrails result in
      let readings = regressions-Outcome config eligible result in
      let stress = stress-Outcome config evidence result in
      let (b, is_best, one) = best_improvement_total eligible h in
      let win = decide_on_best-accepted config result b in
      elim (Bool-cases (check_guardrails config config.guardrails by_name evidence result).1) [
        | inl r ↦ (
          (check_guardrails config config.guardrails by_name evidence result).0,
          ground arith,
          (λ p. ground (arith, rails, p.rails)),
          (λ a. ground (arith, rails)),
        )
        | inr r ↦ elim (Bool-cases (check_eligible_regressions config eligible result).1) [
          | inl e ↦ (
            (check_eligible_regressions config eligible result).0,
            ground arith,
            (λ p. ground (arith, readings, p.readings)),
            (λ a. ground (arith, readings)),
          )
          | inr e ↦ elim (Bool-cases (check_stress_comparisons config evidence result).1) [
            | inl s ↦ (
              (check_stress_comparisons config evidence result).0,
              ground arith,
              (λ p. ground (arith, stress, p.stress)),
              (λ a. ground (arith, stress)),
            )
            | inr s ↦ (
              note_unacted_readings config evidence by_name eligible
                  (decide_on_best config result b),
              ground (arith, is_best),
              (λ p.
                  win.0
                    (subst (Accepts config) (some-injective _ _ (sym p.is_best ∙ is_best)) p.wins)),
              (λ a. record {
                rails = rails.1 r;
                readings = readings.1 e;
                stress = stress.1 s;
                best = b;
                is_best = is_best;
                wins = win.1 a;
              }),
            )
          ]
        ]
      ]

  abbrev Complete : Evidence F → Type 0
  Complete evidence =
      (evidence.behavior_matches ≡ true)
      × (evidence.safety_checks_passed ≡ true)
      × (evidence.representative_evidence ≡ true)

  gates-Outcome :
      (evidence : Evidence F) (result : Result F)
      → Outcome result (evidence_gates result evidence) (Complete evidence)
  unfolding evidence_gates reject inconclusive
  gates-Outcome evidence result = (ground arith, ground arith, ground arith)

  -- The eligible readings of a supported candidate are those that the code finds.
  Supports-Passes :
      (config : Config F) (evidence : Evidence F) (eligible : List (MetricComparison F))
      → eligible_primary config evidence (initial_result evidence)
        ≡ (some eligible, initial_result evidence)
      → Supports config evidence
      → Passes config evidence eligible
  Supports-Passes config evidence eligible found (_, _, _, (other, is_eligible, _, passes)) =
      let same =
        sym (
          eligible_primary_of_IsEligible config evidence (initial_result evidence) other
            is_eligible)
        ∙ found in
      subst (Passes config evidence) (some-injective _ _ (ap (λ p. p.0) same)) passes

  Supports-found :
      (config : Config F) (evidence : Evidence F)
      → Supports config evidence
      → (eligible_primary config evidence (initial_result evidence)).0 ≢ none
  Supports-found config evidence (_, _, _, (other, is_eligible, _, _)) gone =
      let at =
        eligible_primary_of_IsEligible config evidence (initial_result evidence) other
          is_eligible in
      ground (arith, at, gone)

  evaluate_filled_iff :
      (config : Config F) (evidence : Evidence F)
      → (r : Result F) × (evaluate_filled config evidence ≡ some r)
        × (r.decision ≡ accepted → Supports config evidence)
        × (Supports config evidence → r.decision ≡ accepted)
  unfolding evaluate_filled
  evaluate_filled_iff config evidence =
      let result = initial_result evidence in
      let gates = gates-Outcome evidence result in
      elim (Bool-cases (evidence_gates result evidence).1) [
        | inl done ↦ (
          (evidence_gates result evidence).0,
          ground arith,
          (λ a. absurd (gates.0 done a)),
          (λ s. ground (arith, gates.2 (s.0, s.1, s.2))),
        )
        | inr go ↦ elim (eligible_primary-cases config evidence result) [
          | inl (eligible, is_eligible, some_reading, found) ↦
              let (r, judged, to, from) = judge-IsJudged config evidence eligible some_reading in
              let (behavior, safety, representative) = gates.1 go in
              (
                r,
                ground (arith, found, judged),
                (λ a. (
                  behavior,
                  safety,
                  representative,
                  (eligible, is_eligible, some_reading, from a),
                )),
                (λ s. to (Supports-Passes config evidence eligible found s)),
              )
          | inr (gone, refused) ↦ (
            (eligible_primary config evidence result).1,
            ground arith,
            (λ a. absurd (refused a)),
            (λ s. absurd (Supports-found config evidence s gone)),
          )
        ]
      ]

  -- An evaluation always reaches a verdict (it does not index out of range), and the verdict is
  -- an accept exactly when the evidence is complete, every configured guardrail passes, no eligible
  -- reading regressed past the ceiling, no stress reading breached a guardrail, and the best
  -- eligible reading is a statistically supported improvement of at least the minimum on which both
  -- estimators agree, all of it under the configuration with its defaults filled in. The support is
  -- needed whether or not the configuration asks for it.
  pub evaluate-accepted_iff :
      (config : Config F) (evidence : Evidence F)
      → (r : Result F) × (evaluate config evidence ≡ some r)
        × ((r.decision ≡ accepted) ↔ Supports (with_defaults config) evidence)
  unfolding evaluate
  evaluate-accepted_iff config evidence =
      let (r, e, to, from) = evaluate_filled_iff (with_defaults config) evidence in
      (r, e, (to, from))
