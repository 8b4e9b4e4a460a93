-- ===== src/Policy/Laws/Eligible.antt =====
-- internal/policy/policy.go: which readings a verdict may rest on.
use gotorque.Prelude.{
  true, false, not, ◌&&◌, none, some, List, [], ◌∷◌, ◌≡◌, refl, ◌⊎◌, inl, inr, ◌≢◌, is_empty, map,
  arith, Bool-cases, Option-cases,
}
use gotorque.Float64.{Float64}
use gotorque.Domain.{accepted, MetricComparison}
use gotorque.Policy.Types.{Config, Evidence, Result, inconclusive}
use gotorque.Policy.Readings.{
  ByName, index_comparisons, comparison_results, measured, sort_stable, insert_sorted, with_delta,
}
use gotorque.Policy.Improvement.{lookup_primary, eligible_primary}

module _ {F : Type 0} where
  insert_sorted-nonempty :
      (c : MetricComparison F) (cs : List (MetricComparison F))
      → is_empty (insert_sorted c cs) ≡ false
  unfolding insert_sorted
  insert_sorted-nonempty c [] = refl
  insert_sorted-nonempty c (x ∷ xs) = ground arith

  sort_stable-nonempty :
      (cs : List (MetricComparison F)) → is_empty cs ≡ false → is_empty (sort_stable cs) ≡ false
  unfolding sort_stable
  sort_stable-nonempty [] h = h
  sort_stable-nonempty (c ∷ cs) h = insert_sorted-nonempty c (sort_stable cs)

module _ {F : Type 0} ⦃fl : Float64 F⦄ where
  map-nonempty :
      (cs : List (MetricComparison F)) → is_empty cs ≡ false → is_empty (map with_delta cs) ≡ false
  map-nonempty [] h = h
  map-nonempty (c ∷ cs) h = refl

  pub comparison_results-nonempty :
      (cs : List (MetricComparison F))
      → is_empty cs ≡ false
      → is_empty (comparison_results cs) ≡ false
  unfolding comparison_results
  comparison_results-nonempty cs h = sort_stable-nonempty (map with_delta cs) (map-nonempty cs h)

  -- The pooled reading of the primary metric may carry a verdict.
  abbrev pub CarriesPooled : Config F → MetricComparison F → Type 0
  CarriesPooled config p =
      (measured p ≡ true) × (config.statistical_support_required && not p.statistically_fit ≡ false)

  -- With no breakdown by workload the pooled primary reading is the one eligible reading; with one
  -- the eligible readings are the breakdown's.
  abbrev pub IsEligible : Config F → Evidence F → Result F → List (MetricComparison F) → Type 0
  IsEligible config evidence result eligible =
      ((is_empty evidence.primary ≡ true)
        × ((p : MetricComparison F) × (index_comparisons result.comparisons config.primary_metric
              ≡ some p)
            × CarriesPooled config p
            × (eligible ≡ p ∷ [])))
      ⊎ ((is_empty evidence.primary ≡ false) × (eligible ≡ comparison_results evidence.primary))

  -- `lookupPrimary` finds a reading that carries a verdict and keeps the result, or refuses.
  lookup_primary-cases :
      (config : Config F) (by_name : ByName F) (result : Result F)
      → ((p : MetricComparison F) × (by_name config.primary_metric ≡ some p)
          × CarriesPooled config p
          × (lookup_primary config by_name result ≡ (some p, result)))
        ⊎ (((lookup_primary config by_name result).0 ≡ none)
            × ((lookup_primary config by_name result).1.decision ≢ accepted))
  unfolding lookup_primary inconclusive
  lookup_primary-cases config by_name result = elim (Option-cases (by_name config.primary_metric)) [
    | inl e ↦ inr (ground arith, ground arith)
    | inr (p, e) ↦
        elim (Bool-cases (config.statistical_support_required && not p.statistically_fit)) [
          | inl u ↦ inr (ground arith, ground arith)
          | inr s ↦ elim (Bool-cases (measured p)) [
            | inl m ↦ inl (p, e, (m, s), ground arith)
            | inr m ↦ inr (ground arith, ground arith)
          ]
        ]
  ]

  -- Eligible readings are found and the result is kept, or the evaluation ends without an accept.
  pub eligible_primary-cases :
      (config : Config F) (evidence : Evidence F) (result : Result F)
      → ((eligible : List (MetricComparison F)) × IsEligible config evidence result eligible
          × (is_empty eligible ≡ false)
          × (eligible_primary config evidence result ≡ (some eligible, result)))
        ⊎ (((eligible_primary config evidence result).0 ≡ none)
            × ((eligible_primary config evidence result).1.decision ≢ accepted))
  unfolding eligible_primary
  eligible_primary-cases config evidence result = elim (Bool-cases (is_empty evidence.primary)) [
    | inl e ↦ elim (lookup_primary-cases config (index_comparisons result.comparisons) result) [
      | inl (p, at, carries, eq) ↦ inl (p ∷ [], inl (e, (p, at, carries, refl)), refl, ground arith)
      | inr (gone, not_accepted) ↦ inr (ground arith, ground arith)
    ]
    | inr e ↦
        let some_reading = comparison_results-nonempty evidence.primary e in
        inl (
          comparison_results evidence.primary,
          inr (e, refl),
          some_reading,
          ground (arith, some_reading),
        )
  ]

  pub eligible_primary_of_IsEligible :
      (config : Config F) (evidence : Evidence F) (result : Result F)
      (eligible : List (MetricComparison F))
      → IsEligible config evidence result eligible
      → eligible_primary config evidence result ≡ (some eligible, result)
  unfolding eligible_primary lookup_primary
  eligible_primary_of_IsEligible config evidence result eligible (inl (e, (p, at, carries, q))) =
      ground arith
  eligible_primary_of_IsEligible config evidence result eligible (inr (e, q)) =
      ground (arith, comparison_results-nonempty evidence.primary e)
