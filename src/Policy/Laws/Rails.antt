-- ===== src/Policy/Laws/Rails.antt =====
-- internal/policy/policy.go: the checks of the pooled guardrails and of the stress readings, against
-- the readings alone.
use gotorque.Prelude.{
  Bool, true, false, ◌&&◌, Option, none, some, List, [], ◌∷◌, ◌≡◌, ◌⊎◌, ◌≢◌, All, arith,
}
use gotorque.Float64.{Float64}
use gotorque.Domain.{accepted, MetricComparison}
use gotorque.Policy.Types.{Config, Guardrail, Evidence, Result, reject, inconclusive}
use gotorque.Policy.Readings.{ByName, guardrail_limit, breached, replicated_guardrail, measured}
use gotorque.Policy.Guardrails.{
  decide_replicated_breach, fresh_guardrail, first_series_guardrail, replicated_reading,
  check_replicated_guardrail, check_measured_guardrail, check_found_guardrail, check_one_guardrail,
  check_guardrails,
}

module _ {F : Type 0} ⦃fl : Float64 F⦄ where
  -- A reading that may be missing is not past its limit.
  abbrev pub Within : Config F → F → Option (MetricComparison F) → Type 0
  Within config limit none = Unit
  Within config limit (some c) = breached config c limit ≡ false

  -- A fresh series was measured, and its reading is not past the limit.
  abbrev pub Clears : Config F → F → Option (MetricComparison F) → Type 0
  Clears config limit none = ⊥
  Clears config limit (some c) = breached config c limit ≡ false

  -- A replicated guardrail: no series breached it, or the fresh one clears it.
  abbrev pub ReplicatedHolds : Config F → ByName F → Evidence F → Guardrail F → Type 0
  ReplicatedHolds config by_name evidence g =
      let limit = guardrail_limit config g in
      (Within config limit (first_series_guardrail evidence by_name g.name)
        × Within config limit (by_name g.name))
      ⊎ Clears config limit (fresh_guardrail evidence g.name)

  abbrev pub replicates : Config F → Guardrail F → Bool
  replicates config g = replicated_guardrail g.name && config.statistical_support_required

  -- A guardrail that was measured.
  abbrev pub RailHolds :
      Config F → ByName F → Evidence F → Guardrail F → MetricComparison F → Type 0
  RailHolds config by_name evidence g c =
      (measured c ≡ true)
      × (replicates config g ≡ true → ReplicatedHolds config by_name evidence g)
      × (replicates config g ≡ false → breached config c (guardrail_limit config g) ≡ false)

  -- A required guardrail has a pooled reading; a guardrail that has one holds.
  abbrev pub FoundPasses :
      Config F → ByName F → Evidence F → Guardrail F → Option (MetricComparison F) → Type 0
  FoundPasses config by_name evidence g none = g.required ≡ false
  FoundPasses config by_name evidence g (some c) = RailHolds config by_name evidence g c

  abbrev pub RailPasses : Config F → ByName F → Evidence F → Guardrail F → Type 0
  RailPasses config by_name evidence g = FoundPasses config by_name evidence g (by_name g.name)

  -- The outcome of a check: it is done and refuses, or it is not done and leaves the result alone.
  abbrev pub Outcome : Result F → Result F × Bool → Type 0 → Type 0
  Outcome result out P =
      (out.1 ≡ true → out.0.decision ≢ accepted) × (out.1 ≡ false → P) × (P → out ≡ (result, false))

  replicated-Outcome :
      (config : Config F) (by_name : ByName F) (evidence : Evidence F) (g : Guardrail F)
      (result : Result F)
      → Outcome result
          (check_replicated_guardrail config g.name by_name evidence
            (guardrail_limit config g)
            result)
          (ReplicatedHolds config by_name evidence g)
  unfolding check_replicated_guardrail replicated_reading decide_replicated_breach reject
  replicated-Outcome config by_name evidence g result = (ground arith, ground arith, ground arith)

  measured-Outcome :
      (config : Config F) (by_name : ByName F) (evidence : Evidence F) (g : Guardrail F)
      (c : MetricComparison F) (result : Result F)
      → Outcome result
          (check_measured_guardrail config g c by_name evidence result)
          (RailHolds config by_name evidence g c)
  unfolding check_measured_guardrail reject inconclusive
  measured-Outcome config by_name evidence g c result =
      let r = replicated-Outcome config by_name evidence g result in
      (ground (arith, r), ground (arith, r), ground (arith, r))

  found-Outcome :
      (config : Config F) (by_name : ByName F) (evidence : Evidence F) (g : Guardrail F)
      (found : Option (MetricComparison F)) (result : Result F)
      → Outcome result
          (check_found_guardrail config g found by_name evidence result)
          (FoundPasses config by_name evidence g found)
  unfolding check_found_guardrail inconclusive
  found-Outcome config by_name evidence g none result = (ground arith, ground arith, ground arith)
  found-Outcome config by_name evidence g (some c) result =
      measured-Outcome config by_name evidence g c result

  one-Outcome :
      (config : Config F) (by_name : ByName F) (evidence : Evidence F) (g : Guardrail F)
      (result : Result F)
      → Outcome result
          (check_one_guardrail config g by_name evidence result)
          (RailPasses config by_name evidence g)
  unfolding check_one_guardrail
  one-Outcome config by_name evidence g result =
      found-Outcome config by_name evidence g (by_name g.name) result

  -- The guardrails let a result through exactly when each of them passes, and otherwise refuse it.
  pub rails-Outcome :
      (config : Config F) (by_name : ByName F) (evidence : Evidence F) (gs : List (Guardrail F))
      (result : Result F)
      → Outcome result
          (check_guardrails config gs by_name evidence result)
          (All (RailPasses config by_name evidence) gs)
  unfolding check_guardrails
  rails-Outcome config by_name evidence [] result = (ground arith, ground arith, ground arith)
  rails-Outcome config by_name evidence (g ∷ gs) result =
      let one = one-Outcome config by_name evidence g result in
      let rest = rails-Outcome config by_name evidence gs result in
      (ground (arith, one, rest), ground (arith, one, rest), ground (arith, one, rest))
