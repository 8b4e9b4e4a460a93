-- ===== src/Domain.antt =====
-- internal/domain/types.go: the decisions and the measured comparisons behind a verdict.
use gotorque.Prelude.{String, Bool}

-- `Decision` is a string type; `other` is any text but the three constants.
pub data Decision : Type 0 where
  accepted rejected inconclusive : Decision
  other : String → Decision

pub record MetricComparison (F : Type 0) : Type 0 where
  pub metric : String
  -- empty for the pooled reading
  pub workload : String
  pub unit : String
  pub baseline : F
  pub candidate : F
  pub delta_percent : F
  pub shift_percent : F
  pub shift : String
  pub statistically_fit : Bool
  pub significant : Bool
  pub test : String
  pub p_value : F
