-- ===== src/Campaign/Acceptance.antt =====
-- internal/campaign/adk.go: the acceptance policy that a target's performance block asks for.
use gotorque.Prelude.{not, none, some, if◌then◌else◌, str_eq, is_empty, map}
use gotorque.Float64.{Float64}
use gotorque.Manifest.Types.{PerformancePolicy, Guardrail as ManifestGuardrail}
use gotorque.Policy.Types.{Config, Guardrail, default_config}

-- The policy's guardrail of a manifest's.
abbrev pub policy_guardrail : {F : Type 0} → ManifestGuardrail F → Guardrail F
policy_guardrail g = record {
  name = g.name;
  maximum_regression_percent = g.maximum_regression_percent;
  required = g.required;
}

module _ {F : Type 0} ⦃fl : Float64 F⦄ where
  -- A percentage of the manifest, where it is positive.
  abbrev pub positive_or : F → F → F
  positive_or percent default = if fl.lt (fl.whole 0) percent then percent else default

  -- `policyConfigFromManifest`
  unfoldable pub policy_config_from_manifest : PerformancePolicy F → Config F
  policy_config_from_manifest p =
      let preset : Config F = default_config in
      record {
        primary_metric =
            if not (str_eq p.primary_metric "") then p.primary_metric else preset.primary_metric;
        minimum_improvement_percent =
            positive_or p.minimum_improvement_percent preset.minimum_improvement_percent;
        maximum_guardrail_regression_percent =
            positive_or p.maximum_guardrail_regression_percent
              preset.maximum_guardrail_regression_percent;
        statistical_support_required = elim p.statistical_support_required [
          | some required ↦ required
          | none ↦ preset.statistical_support_required
        ];
        guardrails =
            if not (is_empty p.guardrails)
            then map policy_guardrail p.guardrails
            else preset.guardrails;
      }
