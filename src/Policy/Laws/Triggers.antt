-- ===== src/Policy/Laws/Triggers.antt =====
-- internal/policy/policy.go: what the engine measures again, and what the verdict decides.
use gotorque.Prelude.{
  true, false, Option, none, some, List, [], ◌∷◌, ◌≡◌, inl, inr, All, arith, Bool-cases, ◌⊎◌,
}
use gotorque.Float64.{Float64}
use gotorque.Domain.{MetricComparison}
use gotorque.Policy.Types.{Config, Guardrail, Evidence, with_defaults}
use gotorque.Policy.Readings.{
  ByName, index_comparisons, comparison_results, guardrail_limit, breached,
}
use gotorque.Policy.Guardrails.{first_series_guardrail}
use gotorque.Policy.Evaluate.{collect}
use gotorque.Policy.Triggers.{significant_breach, guardrail_to_replicate, guardrails_to_replicate}
use gotorque.Policy.Laws.Rails.{Within, ReplicatedHolds, replicates}

-- A loop that collects nothing found nothing in any round.
collect-nil :
    {A B : Type 0} (f : A → Option B) (x : A) (xs : List A)
    → collect f (x ∷ xs) ≡ []
    → (f x ≡ none) × (collect f xs ≡ [])
collect-nil f x xs h = ground arith

module _ {F : Type 0} ⦃fl : Float64 F⦄ where
  significant_breach-Within :
      (config : Config F) (g : Guardrail F) (found : Option (MetricComparison F))
      → config.statistical_support_required ≡ true
      → significant_breach config g found ≡ none
      → Within config (guardrail_limit config g) found
  unfolding significant_breach breached
  significant_breach-Within config g none support h = tt
  significant_breach-Within config g (some c) support h = ground arith

  rail_not_to_replicate :
      (config : Config F) (evidence : Evidence F) (by_name : ByName F) (g : Guardrail F)
      → config.statistical_support_required ≡ true
      → evidence.first_series_guardrails ≡ []
      → guardrail_to_replicate config by_name g ≡ none
      → (replicates config g ≡ false) ⊎ ReplicatedHolds config by_name evidence g
  unfolding guardrail_to_replicate first_series_guardrail
  rail_not_to_replicate config evidence by_name g support first h =
      elim (Bool-cases (replicates config g)) [
        | inr r ↦ inl r
        | inl r ↦
            let within =
              significant_breach-Within config g (by_name g.name) support (ground arith) in
            inr (inl (rw first within, within))
      ]

  rails_not_to_replicate :
      (config : Config F) (evidence : Evidence F) (by_name : ByName F) (gs : List (Guardrail F))
      → config.statistical_support_required ≡ true
      → evidence.first_series_guardrails ≡ []
      → collect (guardrail_to_replicate config by_name) gs ≡ []
      → All (λ g. (replicates config g ≡ false) ⊎ ReplicatedHolds config by_name evidence g) gs
  rails_not_to_replicate config evidence by_name [] support first h = tt
  rails_not_to_replicate config evidence by_name (g ∷ gs) support first h =
      let (none_here, none_left) = collect-nil (guardrail_to_replicate config by_name) g gs h in
      (
        rail_not_to_replicate config evidence by_name g support first none_here,
        rails_not_to_replicate config evidence by_name gs support first none_left,
      )

  -- Where support is asked for and the engine is told to replicate no guardrail, a verdict on the
  -- first series alone rejects on no guardrail whose breach has to reproduce: each one holds.
  pub guardrails_to_replicate-holds :
      (config : Config F) (evidence : Evidence F)
      → (with_defaults config).statistical_support_required ≡ true
      → evidence.first_series_guardrails ≡ []
      → guardrails_to_replicate config evidence.comparisons ≡ []
      → All
          (λ g.
            (replicates (with_defaults config) g ≡ false)
            ⊎ ReplicatedHolds
                (with_defaults config)
                (index_comparisons (comparison_results evidence.comparisons))
                evidence
                g)
          (with_defaults config).guardrails
  unfolding guardrails_to_replicate
  guardrails_to_replicate-holds config evidence support first h =
      rails_not_to_replicate (with_defaults config) evidence
        (index_comparisons (comparison_results evidence.comparisons))
        (with_defaults config).guardrails support first (simp support at h)
