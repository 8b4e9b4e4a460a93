-- ===== src/Manifest/Tests.antt =====
-- internal/manifest: the theorems at concrete trade-offs and a concrete manifest, on fixed-point decimals,
-- with a parser of the one number that the specifications write.
use gotorque.Prelude.{
  String, Option, none, some, [], ◌∷◌, ◌≡◌, refl, if◌then◌else◌, str_eq, not, ◌||◌, ◌&&◌,
  trim_space, cut_at, has_key, true, false, Bool, is_empty, pos,
}
use gotorque.Outcome.{is_ok, Yields}
use gotorque.Float64.Fixed.{Num, fixed_float, whole_num}
use gotorque.Manifest.Types.{PerformancePolicy}
use gotorque.Manifest.Tradeoff.{
  Tradeoff, apply, resolve_tradeoff, set_guardrail, apply_allowances, switch_objective,
  switch_guardrails, trim_percent, parse_sides, parse_allowance, metric_name, known_metric,
  lay_over, start_from, check_objective,
}
use gotorque.Manifest.Validate.{
  Sandbox, Stream, CampaignLimits, Manifest, apply_defaults, semantic_problems,
  validate_normalization, validate_identity, validate_seeds, seed_problems, file_problems, outside,
  rules_fail, files_fail, validate_discovery_and_tiers, tier_problems, validate_sandbox,
  validate_filesystem_sandbox, validate_performance_and_policy, validate_campaign,
  apply_performance_defaults, apply_campaign_defaults,
}
use gotorque.Manifest.Laws.Guardrails.{guardrail_of}
use gotorque.Manifest.Laws.Resolve.{OfMetrics, resolve-applies}

abbrev parse_five : String → Option Num
parse_five s = if str_eq s "5" then some (whole_num 5) else none

abbrev block : PerformancePolicy Num
block = record {
  primary_metric = "wall_time_ns";
  minimum_improvement_percent = whole_num 3;
  maximum_guardrail_regression_percent = whole_num 2;
  statistical_support_required = none;
  guardrails =
      record { name = "cpu_time_ns"; maximum_regression_percent = whole_num 1; required = false }
      ∷ [];
}

abbrev smaller : Tradeoff Num
smaller = record {
  name = "";
  objective = "binary_size_bytes";
  allow = ("peak_memory_bytes", whole_num 5) ∷ [];
}

switched_block :
    Yields
      (λ out.
        guardrail_of out.guardrails "wall_time_ns"
        ≡ some record {
          name = "wall_time_ns";
          maximum_regression_percent = whole_num 2;
          required = true;
        })
      (apply smaller block)
unfolding apply apply_allowances switch_objective switch_guardrails set_guardrail
switched_block = refl

resolve-applies_example :
    Yields
      (λ t.
        OfMetrics t
        × (not (str_eq t.objective "") && has_key t.allow t.objective ≡ false)
        × (is_ok (apply t block)
            ≡ (not (str_eq t.objective "") || not (has_key t.allow block.primary_metric))))
      (resolve_tradeoff parse_five "speed" ("memory = 5%" ∷ []))
resolve-applies_example = resolve-applies parse_five "speed" ("memory = 5%" ∷ []) block

laid_over : is_ok (resolve_tradeoff parse_five "speed" ("memory=5%" ∷ [])) ≡ true
unfolding resolve_tradeoff start_from lay_over parse_allowance parse_sides cut_at trim_percent
    metric_name known_metric check_objective trim_space
laid_over = refl

refused : is_ok (resolve_tradeoff parse_five "speed" ("wall=5%" ∷ [])) ≡ false
unfolding resolve_tradeoff start_from lay_over parse_allowance parse_sides cut_at trim_percent
    metric_name known_metric check_objective trim_space
refused = refl

abbrev anywhere : String → Bool
anywhere path = false

abbrev as_is : String → String
as_is path = path

abbrev any_pattern : String → Bool
any_pattern pattern = true

-- Limits that are left to the defaults.
abbrev no_limits : CampaignLimits Num
no_limits = record {
  max_duration = pos 0;
  max_candidate_patches = pos 0;
  max_concurrent_candidates = pos 0;
  stop_after_failures = pos 0;
  stop_after_inconclusive = pos 0;
  discovery_stall_timeout = pos 0;
  per_command_timeout_multiple = whole_num 0;
  minimum_command_timeout = pos 0;
}

abbrev exact_stream : Stream
exact_stream = record { path = ""; mode = "exact"; patterns = [] }

abbrev offline : Sandbox
offline = record {
  network = "deny";
  read = "repo_and_assets";
  write = "temp_only";
  max_processes = pos 8;
  max_memory_bytes = pos 0;
}

abbrev sorter : Manifest Num
sorter = record {
  version = "";
  name = "sorter";
  repository = "repo";
  build_package = "./cmd/sorter";
  build_binary = "sorter";
  build_directory = "";
  seeds =
      record { id = "small"; tier = "representative"; files = "input.txt" ∷ [] }
      ∷ record { id = "large"; tier = "stress"; files = [] }
      ∷ [];
  discovery_enabled = false;
  max_cases = pos 0;
  max_depth = pos 0;
  weights =
      ("representative", whole_num 1) ∷ ("plausible", whole_num 0) ∷ ("stress", whole_num 0) ∷ [];
  sandbox = offline;
  stdout = exact_stream;
  stderr = exact_stream;
  files = [];
  performance = block;
  optimization_policy = "idiomatic";
  campaign = no_limits;
}

-- The manifest is taken with the defaults, and refused without them.
sorter_taken :
    is_empty (semantic_problems anywhere as_is any_pattern (apply_defaults sorter)) ≡ true
unfolding semantic_problems validate_identity validate_seeds seed_problems file_problems outside
    rules_fail files_fail validate_normalization validate_discovery_and_tiers tier_problems
    validate_sandbox validate_filesystem_sandbox validate_performance_and_policy validate_campaign
    apply_defaults apply_performance_defaults apply_campaign_defaults trim_space
sorter_taken = refl

sorter_refused : is_empty (semantic_problems anywhere as_is any_pattern sorter) ≡ false
unfolding semantic_problems validate_identity validate_seeds seed_problems file_problems outside
    rules_fail files_fail validate_normalization validate_discovery_and_tiers tier_problems
    validate_sandbox validate_filesystem_sandbox validate_performance_and_policy validate_campaign
    trim_space
sorter_refused = refl
