-- ===== src/Policy/Samples.antt =====
-- internal/policy/policy.go: sample evidence. The numbers are fixed-point decimals.
use gotorque.Prelude.{Bool, true, String, ℕ, List, [], ◌∷◌}
use gotorque.Float64.Fixed.{Num, not_a_number, whole_num, fixed_float}
use gotorque.Domain.{MetricComparison}
use gotorque.Policy.Types.{Evidence}

-- A reading of a metric on a workload, with its baseline and its candidate in whole units.
abbrev pub reading : String → String → ℕ → ℕ → Bool → MetricComparison Num
reading metric workload before after fit = record {
  metric = metric;
  workload = workload;
  unit = "";
  baseline = whole_num before;
  candidate = whole_num after;
  delta_percent = not_a_number;
  shift_percent = not_a_number;
  shift = "";
  statistically_fit = fit;
  significant = fit;
  test = "";
  p_value = not_a_number;
}

abbrev pub pooled : List (MetricComparison Num)
pooled =
    reading "wall_time_ns" "" 100 90 true
    ∷ reading "peak_memory_bytes" "" 100 101 true
    ∷ reading "cpu_time_ns" "" 100 99 true
    ∷ reading "binary_size_bytes" "" 100 100 true
    ∷ []

abbrev pub evidence : Evidence Num
evidence = record {
  behavior_matches = true;
  failure_summary = "";
  safety_checks_passed = true;
  representative_evidence = true;
  comparisons = pooled;
  primary = [];
  stress_comparisons = reading "peak_memory_bytes" "large" 100 101 true ∷ [];
  fresh_guardrails = [];
  first_series_guardrails = [];
}
