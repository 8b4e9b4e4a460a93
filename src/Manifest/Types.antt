-- ===== src/Manifest/Types.antt =====
-- internal/manifest/types.go: the performance block.
use gotorque.Prelude.{String, Bool, Option, List}

-- `Guardrail`
pub record Guardrail (F : Type 0) : Type 0 where
  pub name : String
  pub maximum_regression_percent : F
  pub required : Bool

-- `PerformancePolicy`; a nil pointer is `none`.
pub record PerformancePolicy (F : Type 0) : Type 0 where
  pub primary_metric : String
  pub minimum_improvement_percent : F
  pub maximum_guardrail_regression_percent : F
  pub statistical_support_required : Option Bool
  pub guardrails : List (Guardrail F)
