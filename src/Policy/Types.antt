-- ===== src/Policy/Types.antt =====
-- internal/policy/policy.go: `Config`, `Guardrail`, `Evidence`, `Result`, `withDefaults`, and the
-- two ways a verdict stops early.
use gotorque.Prelude.{String, Bool, true, List, [], ◌∷◌, map, if◌then◌else◌, str_eq, is_empty}
use gotorque.Float64.{Float64}
use gotorque.Domain.{Decision, rejected, inconclusive as is_inconclusive, MetricComparison}

pub record Guardrail (F : Type 0) : Type 0 where
  pub name : String
  pub maximum_regression_percent : F
  pub required : Bool

pub record Config (F : Type 0) : Type 0 where
  pub primary_metric : String
  pub minimum_improvement_percent : F
  pub maximum_guardrail_regression_percent : F
  pub statistical_support_required : Bool
  pub guardrails : List (Guardrail F)

pub record Evidence (F : Type 0) : Type 0 where
  pub behavior_matches : Bool
  pub failure_summary : String
  pub safety_checks_passed : Bool
  pub representative_evidence : Bool
  pub comparisons : List (MetricComparison F)
  pub primary : List (MetricComparison F)
  pub stress_comparisons : List (MetricComparison F)
  pub fresh_guardrails : List (MetricComparison F)
  pub first_series_guardrails : List (MetricComparison F)

pub record Result (F : Type 0) : Type 0 where
  pub decision : Decision
  pub comparisons : List (MetricComparison F)
  pub reasons : List String

module _ {F : Type 0} where
  -- `reject`
  unfoldable pub reject : Result F → String → Result F
  reject result reason = record result { decision = rejected; reasons = reason ∷ [] }

  -- `inconclusive`
  unfoldable pub inconclusive : Result F → String → Result F
  inconclusive result reason = record result { decision = is_inconclusive; reasons = reason ∷ [] }

module _ {F : Type 0} ⦃fl : Float64 F⦄ where
  -- `DefaultMinimumImprovementPercent`, `DefaultMaximumGuardrailRegressionPercent`
  abbrev pub default_minimum_improvement_percent : F
  default_minimum_improvement_percent = fl.whole 3

  abbrev pub default_maximum_guardrail_regression_percent : F
  default_maximum_guardrail_regression_percent = fl.whole 2

  default_guardrail : String → Guardrail F
  default_guardrail name = record {
    name = name;
    maximum_regression_percent = default_maximum_guardrail_regression_percent;
    required = true;
  }

  -- `DefaultConfig`
  unfoldable pub default_config : Config F
  unfolding default_guardrail
  default_config = record {
    primary_metric = "wall_time_ns";
    minimum_improvement_percent = default_minimum_improvement_percent;
    maximum_guardrail_regression_percent = default_maximum_guardrail_regression_percent;
    statistical_support_required = true;
    guardrails =
        default_guardrail "peak_memory_bytes"
        ∷ default_guardrail "cpu_time_ns"
        ∷ default_guardrail "binary_size_bytes"
        ∷ [];
  }

  -- A percentage, or its default where the configuration leaves it at 0.
  unfoldable pub or_default : F → F → F
  or_default value preset = if fl.eq value (fl.whole 0) then preset else value

  -- The last loop of `withDefaults`, for one guardrail.
  unfoldable pub limit_default : F → Guardrail F → Guardrail F
  unfolding or_default
  limit_default shared g = record g {
    maximum_regression_percent = or_default g.maximum_regression_percent shared;
  }

  -- `withDefaults`
  unfoldable pub with_defaults : Config F → Config F
  unfolding or_default limit_default
  with_defaults config =
      let shared =
        or_default config.maximum_guardrail_regression_percent
          default_maximum_guardrail_regression_percent in
      let rails =
        if is_empty config.guardrails then default_config.guardrails else config.guardrails in
      record {
        primary_metric =
            if str_eq config.primary_metric "" then "wall_time_ns" else config.primary_metric;
        minimum_improvement_percent =
            or_default config.minimum_improvement_percent default_minimum_improvement_percent;
        maximum_guardrail_regression_percent = shared;
        statistical_support_required = config.statistical_support_required;
        guardrails = map (limit_default shared) rails;
      }
