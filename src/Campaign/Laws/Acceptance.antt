-- ===== src/Campaign/Laws/Acceptance.antt =====
-- internal/campaign/adk.go, internal/manifest/tradeoff.go and internal/policy/policy.go: what becomes of an
-- allowance in the policy that a candidate is judged by.
use mathlib.Core.Option.{some-injective}
use gotorque.Prelude.{
  String, true, false, some, List, [], ◌∷◌, map, if◌then◌else◌, ◌≡◌, refl, sym, ap, ◌∙◌, str_eq,
  is_empty, has_key, Bool-cases, inl, inr,
}
use gotorque.Float64.{Float64}
use gotorque.Outcome.{Yields, Yields-map}
use gotorque.Manifest.Types.{PerformancePolicy, Guardrail as ManifestGuardrail}
use gotorque.Manifest.Tradeoff.{Tradeoff, apply, allowed}
use gotorque.Manifest.Laws.Guardrails.{guardrail_of, required_at}
use gotorque.Manifest.Laws.Apply.{guardrail_after, apply-refines}
use gotorque.Policy.Types.{Guardrail, with_defaults, or_default, limit_default}
use gotorque.Policy.Stress.{named_in, guardrail_named}
use gotorque.Campaign.Acceptance.{policy_guardrail, policy_config_from_manifest}

module _ {F : Type 0} ⦃fl : Float64 F⦄ where
  named_in-manifest :
      (gs : List (ManifestGuardrail F)) (n : String) (g : ManifestGuardrail F)
      → guardrail_of gs n ≡ some g
      → named_in (map policy_guardrail gs) n ≡ some (policy_guardrail g)
  unfolding named_in
  named_in-manifest [] n g h = cc
  named_in-manifest (g' ∷ gs) n g h = elim (Bool-cases (str_eq g'.name n)) [
    | inl e ↦ rw e (
        ap (λ x. some (policy_guardrail x))
          (some-injective _ _ (sym (ap (λ b. if b then some g' else guardrail_of gs n) e) ∙ h)))
    | inr e ↦
        rw e (
          named_in-manifest gs n g (sym (ap (λ b. if b then some g' else guardrail_of gs n) e) ∙ h))
  ]

  named_in-limits :
      (shared : F) (gs : List (Guardrail F)) (n : String) (g : Guardrail F)
      → named_in gs n ≡ some g
      → named_in (map (limit_default shared) gs) n ≡ some (limit_default shared g)
  unfolding named_in limit_default
  named_in-limits shared [] n g h = cc
  named_in-limits shared (g' ∷ gs) n g h = elim (Bool-cases (str_eq g'.name n)) [
    | inl e ↦ rw e (
        ap (λ x. some (limit_default shared x))
          (some-injective _ _ (sym (ap (λ b. if b then some g' else named_in gs n) e) ∙ h)))
    | inr e ↦
        rw e (
          named_in-limits shared gs n g
            (sym (ap (λ b. if b then some g' else named_in gs n) e) ∙ h))
  ]

  nonempty :
      (gs : List (ManifestGuardrail F)) (n : String) (g : ManifestGuardrail F)
      → guardrail_of gs n ≡ some g
      → is_empty gs ≡ false
  nonempty [] n g h = cc
  nonempty (g' ∷ gs) n g h = refl

  nonempty-map :
      (gs : List (ManifestGuardrail F)) (n : String) (g : ManifestGuardrail F)
      → guardrail_of gs n ≡ some g
      → is_empty (map policy_guardrail gs) ≡ false
  nonempty-map [] n g h = cc
  nonempty-map (g' ∷ gs) n g h = refl

  allowed-after :
      (t : Tradeoff F) (p : PerformancePolicy F) (n : String)
      → has_key t.allow n ≡ true
      → guardrail_after t p n ≡ some (required_at (allowed t n) n)
  allowed-after t p n h = rw h refl

  -- The limit that the policy has for the guardrails that name none.
  abbrev pub shared_limit : PerformancePolicy F → F
  shared_limit p =
      (with_defaults (policy_config_from_manifest p)).maximum_guardrail_regression_percent

  filled-guardrail :
      (p : PerformancePolicy F) (n : String) (g : ManifestGuardrail F)
      → guardrail_of p.guardrails n ≡ some g
      → guardrail_named (with_defaults (policy_config_from_manifest p)) n
        ≡ some (limit_default (shared_limit p) (policy_guardrail g))
  unfolding guardrail_named with_defaults policy_config_from_manifest
  filled-guardrail p n g h =
      rw (nonempty p.guardrails n g h, nonempty-map p.guardrails n g h)
        (named_in-limits (shared_limit p) (map policy_guardrail p.guardrails) n (policy_guardrail g)
          (named_in-manifest p.guardrails n g h))

  -- An allowance that a performance block takes is the limit of the metric's guardrail in the policy
  -- that judges the candidates, and the guardrail is required; but an allowance of zero is the limit
  -- that the block has for all guardrails.
  pub allowance-judged :
      (t : Tradeoff F) (p : PerformancePolicy F) (n : String)
      → has_key t.allow n ≡ true
      → Yields
          (λ out.
            guardrail_named (with_defaults (policy_config_from_manifest out)) n
            ≡ some record {
              name = n;
              maximum_regression_percent =
                  if fl.eq (allowed t n) (fl.whole 0) then shared_limit out else allowed t n;
              required = true;
            })
          (apply t p)
  unfolding limit_default or_default
  allowance-judged t p n h =
      Yields-map
        (λ out (primary, view).
          filled-guardrail out n (required_at (allowed t n) n) (view ∙ allowed-after t p n h))
        (apply t p) (apply-refines t p n).1
