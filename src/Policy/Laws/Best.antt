-- ===== src/Policy/Laws/Best.antt =====
-- internal/policy/policy.go: what `bestImprovement` returns, and when it accepts.
use gotorque.Prelude.{
  Bool, true, false, some, List, [], ◌∷◌, foldl, ◌≡◌, refl, sym, ◌∙◌, ◌⊎◌, inl, inr, Any, is_empty,
  keep, arith,
}
use gotorque.Float64.{Float64}
use gotorque.Domain.{accepted, MetricComparison}
use gotorque.Policy.Types.{Config, Result, inconclusive}
use gotorque.Policy.Improvement.{
  improvement_delta, estimators_agree, better_of, best_of, candidates_of, best_improvement,
  decide_on_best,
}

module _ {F : Type 0} ⦃fl : Float64 F⦄ where
  -- The reading that the loop ends with is one of those it saw, with its own support.
  abbrev IsOneOf : List (MetricComparison F) → MetricComparison F × Bool → Type 0
  IsOneOf cs (best, supported) =
      Any (λ (c : MetricComparison F). c ≡ best) cs × (supported ≡ best.statistically_fit)

  better_of-cases :
      (b : MetricComparison F × Bool) (c : MetricComparison F)
      → ((better_of b c).0 ≡ c) ⊎ ((better_of b c).0 ≡ b.0)
  unfolding better_of
  better_of-cases (best, supported) c = ground arith

  better_of-fit :
      (b : MetricComparison F × Bool) (c : MetricComparison F)
      → b.1 ≡ b.0.statistically_fit
      → (better_of b c).1 ≡ (better_of b c).0.statistically_fit
  unfolding better_of
  better_of-fit (best, supported) c h = ground arith

  Any-head :
      (x best c b : MetricComparison F) (cs : List (MetricComparison F))
      → (x ≡ c) ⊎ (x ≡ best)
      → Any (λ (y : MetricComparison F). y ≡ b) (x ∷ cs)
      → Any (λ (y : MetricComparison F). y ≡ b) (best ∷ c ∷ cs)
  Any-head x best c b cs (inl e) (inl p) = inr (inl (sym e ∙ p))
  Any-head x best c b cs (inr e) (inl p) = inl (sym e ∙ p)
  Any-head x best c b cs _ (inr q) = inr (inr q)

  foldl-better_of :
      (cs : List (MetricComparison F)) (b : MetricComparison F × Bool)
      → b.1 ≡ b.0.statistically_fit
      → IsOneOf (b.0 ∷ cs) (foldl better_of b cs)
  foldl-better_of [] b h = (inl refl, h)
  foldl-better_of (c ∷ cs) b h =
      let (one, fit) = foldl-better_of cs (better_of b c) (better_of-fit b c h) in
      (Any-head (better_of b c).0 b.0 c _ cs (better_of-cases b c) one, fit)

  -- Among readings there is a best one.
  best_of_total :
      (cs : List (MetricComparison F))
      → is_empty cs ≡ false
      → (b : MetricComparison F × Bool) × (best_of cs ≡ some b) × IsOneOf cs b
  unfolding best_of
  best_of_total [] h = cc
  best_of_total (c ∷ cs) h = (
    foldl better_of (c, c.statistically_fit) cs,
    refl,
    foldl-better_of cs (c, c.statistically_fit) refl,
  )

  keep-Any :
      (p : MetricComparison F → Bool) (b : MetricComparison F) (cs : List (MetricComparison F))
      → Any (λ (c : MetricComparison F). c ≡ b) (keep p cs)
      → Any (λ (c : MetricComparison F). c ≡ b) cs
  keep-Any p b [] h = h
  keep-Any p b (c ∷ cs) h = ground (arith, keep-Any p b cs)

  candidates_of-nonempty :
      (cs : List (MetricComparison F)) → is_empty cs ≡ false → is_empty (candidates_of cs) ≡ false
  unfolding candidates_of
  candidates_of-nonempty cs h = ground arith

  candidates_of-Any :
      (b : MetricComparison F) (cs : List (MetricComparison F))
      → Any (λ (c : MetricComparison F). c ≡ b) (candidates_of cs)
      → Any (λ (c : MetricComparison F). c ≡ b) cs
  unfolding candidates_of
  candidates_of-Any b cs = ground (arith, keep-Any estimators_agree b cs)

  pub best_improvement_total :
      (cs : List (MetricComparison F))
      → is_empty cs ≡ false
      → (b : MetricComparison F × Bool) × (best_improvement cs ≡ some b) × IsOneOf cs b
  unfolding best_improvement
  best_improvement_total cs h =
      let (b, e, (one, fit)) = best_of_total (candidates_of cs) (candidates_of-nonempty cs h) in
      (b, e, (candidates_of-Any b.0 cs one, fit))

  -- The test that the best reading has to pass, whose support is given.
  abbrev pub Accepts : Config F → MetricComparison F × Bool → Type 0
  Accepts config (best, supported) =
      (supported ≡ true)
      × (fl.lt (fl.neg (improvement_delta best)) config.minimum_improvement_percent ≡ false)
      × (estimators_agree best ≡ true)

  pub decide_on_best-accepted :
      (config : Config F) (result : Result F) (b : MetricComparison F × Bool)
      → (Accepts config b → (decide_on_best config result b).decision ≡ accepted)
        × ((decide_on_best config result b).decision ≡ accepted → Accepts config b)
  unfolding decide_on_best inconclusive
  decide_on_best-accepted config result (best, supported) = (ground arith, ground arith)
