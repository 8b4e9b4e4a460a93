-- ===== src/Policy/Laws/Support.antt =====
-- internal/policy/policy.go: `bestImprovement` and the support of the reading it returns.
use gotorque.Float64.{Float64}
