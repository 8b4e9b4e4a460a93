-- ===== src/Manifest/Validate.antt =====
-- internal/manifest/types.go: a manifest, the defaults that it is filled with, and its semantic validation.
-- `filepath.IsAbs`, `filepath.Clean` and whether `regexp.Compile` takes a pattern are parameters. Maps have
-- no key twice; the texts of problems leave out the values that they quote.
use text.Mathlib.Text.{starts_with}
use gotorque.Prelude.{
  String, Bool, true, false, not, ◌&&◌, ◌||◌, Option, none, some, List, [], ◌∷◌, ◌++◌,
  if◌then◌else◌, str_eq, is_empty, contains, lookup, trim_space, map, ℤ, pos, is_negative, is_zero,
  below_one, int_eq,
}
use gotorque.Float64.{Float64}
use gotorque.Manifest.Types.{Guardrail, PerformancePolicy}

-- `CampaignLimits`, with durations in nanoseconds.
pub record CampaignLimits (F : Type 0) : Type 0 where
  pub max_duration : ℤ
  pub max_candidate_patches : ℤ
  pub max_concurrent_candidates : ℤ
  pub stop_after_failures : ℤ
  pub stop_after_inconclusive : ℤ
  pub discovery_stall_timeout : ℤ
  pub per_command_timeout_multiple : F
  pub minimum_command_timeout : ℤ

-- Of a `SeedWorkload` what is validated, with the paths of its files.
pub record SeedWorkload : Type 0 where
  pub id : String
  pub tier : String
  pub files : List String

-- `Sandbox`, with its `FilesystemSandbox`.
pub record Sandbox : Type 0 where
  pub network : String
  pub read : String
  pub write : String
  pub max_processes : ℤ
  pub max_memory_bytes : ℤ

-- A `StreamNormalization` or `FileNormalization`, with the patterns of its rules.
pub record Stream : Type 0 where
  pub path : String
  pub mode : String
  pub patterns : List String

-- Of a `Manifest` what is validated. The weights are those of the tiers.
pub record Manifest (F : Type 0) : Type 0 where
  pub version : String
  pub name : String
  pub repository : String
  pub build_package : String
  pub build_binary : String
  pub build_directory : String
  pub seeds : List SeedWorkload
  pub discovery_enabled : Bool
  pub max_cases : ℤ
  pub max_depth : ℤ
  pub weights : List (String × F)
  pub sandbox : Sandbox
  pub stdout : Stream
  pub stderr : Stream
  pub files : List Stream
  pub performance : PerformancePolicy F
  pub optimization_policy : String
  pub campaign : CampaignLimits F

-- A problem, where a test fails.
abbrev pub problem_if : Bool → String → List String
problem_if failed text = if failed then text ∷ [] else []

abbrev pub int_or : ℤ → ℤ → ℤ
int_or value preset = if is_zero value then preset else value

abbrev pub tiers : List String
tiers = "representative" ∷ "plausible" ∷ "stress" ∷ []

abbrev pub modes : List String
modes = "exact" ∷ "trim_trailing_whitespace" ∷ "lines_sorted" ∷ "json" ∷ "ignore" ∷ []

-- `validateFilesystemSandbox`
unfoldable pub validate_filesystem_sandbox : Sandbox → List String
validate_filesystem_sandbox fs =
    problem_if
      (not (str_eq fs.read "repo_and_assets")
        && not (str_eq fs.read "manifest_paths")
        && not (str_eq fs.read "none"))
      "sandbox.filesystem.read must be repo_and_assets, manifest_paths, or none"
    ++ problem_if
        (not (str_eq fs.write "temp_only")
          && not (str_eq fs.write "manifest_paths")
          && not (str_eq fs.write "any"))
        "sandbox.filesystem.write must be temp_only, manifest_paths, or any"

-- `validateSandbox`
unfoldable pub validate_sandbox : Sandbox → List String
validate_sandbox s =
    ((problem_if (not (str_eq s.network "deny") && not (str_eq s.network "allow"))
          "sandbox.network must be deny or allow"
        ++ validate_filesystem_sandbox s)
      ++ problem_if (below_one s.max_processes) "sandbox.max_processes must be positive")
    ++ problem_if (is_negative s.max_memory_bytes) "sandbox.max_memory_bytes must not be negative"

module _ {F : Type 0} ⦃fl : Float64 F⦄ where
  abbrev pub or_if_zero : F → F → F
  or_if_zero value preset = if fl.eq value (fl.whole 0) then preset else value

  abbrev pub default_rail : String → Guardrail F
  default_rail name = record {
    name = name;
    maximum_regression_percent = fl.whole 2;
    required = true;
  }

  -- The last loop of `applyPerformanceDefaults`, for one guardrail.
  abbrev pub rail_limit : F → Guardrail F → Guardrail F
  rail_limit shared g = record g {
    maximum_regression_percent = or_if_zero g.maximum_regression_percent shared;
  }

  -- `applyPerformanceDefaults`
  unfoldable pub apply_performance_defaults : PerformancePolicy F → PerformancePolicy F
  apply_performance_defaults p =
      let shared = or_if_zero p.maximum_guardrail_regression_percent (fl.whole 2) in
      let rails =
        if is_empty p.guardrails
        then default_rail "peak_memory_bytes"
          ∷ default_rail "cpu_time_ns"
          ∷ default_rail "binary_size_bytes"
          ∷ []
        else p.guardrails in
      record {
        primary_metric = if str_eq p.primary_metric "" then "wall_time_ns" else p.primary_metric;
        minimum_improvement_percent = or_if_zero p.minimum_improvement_percent (fl.whole 3);
        maximum_guardrail_regression_percent = shared;
        statistical_support_required = elim p.statistical_support_required [
          | none ↦ some true
          | some required ↦ some required
        ];
        guardrails = map (rail_limit shared) rails;
      }

  -- `applyCampaignDefaults`
  unfoldable pub apply_campaign_defaults : CampaignLimits F → CampaignLimits F
  apply_campaign_defaults c = record c {
    max_duration = int_or c.max_duration (pos 5400000000000);
    max_candidate_patches = int_or c.max_candidate_patches (pos 12);
    max_concurrent_candidates = int_or c.max_concurrent_candidates (pos 1);
    stop_after_failures = int_or c.stop_after_failures (pos 4);
    discovery_stall_timeout = int_or c.discovery_stall_timeout (pos 1200000000000);
    per_command_timeout_multiple = or_if_zero c.per_command_timeout_multiple (fl.whole 2);
    minimum_command_timeout = int_or c.minimum_command_timeout (pos 30000000000);
  }

  -- `ApplyDefaults`
  unfoldable pub apply_defaults : Manifest F → Manifest F
  apply_defaults m = record m {
    version = if str_eq m.version "" then "v1" else m.version;
    performance = apply_performance_defaults m.performance;
    campaign = apply_campaign_defaults m.campaign;
  }

  -- `validateCampaign`
  unfoldable pub validate_campaign : CampaignLimits F → List String
  validate_campaign c =
      if below_one c.max_duration
        || below_one c.max_candidate_patches
        || not (int_eq c.max_concurrent_candidates (pos 1))
        || below_one c.stop_after_failures
        || fl.le c.per_command_timeout_multiple (fl.whole 0)
        || below_one c.minimum_command_timeout
      then "campaign limits must be positive and max_concurrent_candidates must be 1" ∷ []
      else problem_if (is_negative c.stop_after_inconclusive)
          "stop_after_inconclusive must not be negative"

  -- `validatePerformanceAndPolicy`
  unfoldable pub validate_performance_and_policy : PerformancePolicy F → String → List String
  validate_performance_and_policy p policy =
      problem_if
        (str_eq p.primary_metric ""
          || fl.lt p.minimum_improvement_percent (fl.whole 0)
          || fl.lt p.maximum_guardrail_regression_percent (fl.whole 0))
        "performance metric and thresholds must be valid"
      ++ problem_if
          (not (str_eq policy "idiomatic")
            && not (str_eq policy "specialized")
            && not (str_eq policy "native"))
          "optimization_policy must be idiomatic, specialized, or native"

  -- A tier of the configuration that is there with a weight that is not negative.
  abbrev pub tier_fails : Option F → Bool
  tier_fails none = true
  tier_fails (some weight) = fl.lt weight (fl.whole 0)

  -- The loop over the tiers of `validateDiscoveryAndTiers`.
  unfoldable pub tier_problems : List (String × F) → List String → List String
  tier_problems weights [] = []
  tier_problems weights (tier ∷ rest) =
      problem_if (tier_fails (lookup tier weights)) "tier must exist with a non-negative weight"
      ++ tier_problems weights rest

  -- `validateDiscoveryAndTiers`
  unfoldable pub validate_discovery_and_tiers : Manifest F → List String
  validate_discovery_and_tiers m =
      problem_if (m.discovery_enabled && (below_one m.max_cases || below_one m.max_depth))
        "enabled discovery requires positive max_cases and max_depth"
      ++ tier_problems m.weights tiers

module _ (is_abs : String → Bool) (clean : String → String) where
  -- `validateRelativePath`: the path is refused.
  unfoldable pub outside : String → Bool
  outside path =
      str_eq path ""
      || is_abs path
      || str_eq (clean path) "."
      || starts_with (clean path) "../"
      || str_eq (clean path) ".."

  -- The loop over the files of a seed.
  unfoldable pub file_problems : List String → List String
  file_problems [] = []
  file_problems (file ∷ rest) =
      problem_if (outside file) "path must be relative and stay within the sandbox"
      ++ file_problems rest

  -- The loop over the seeds, with the ids that were seen.
  unfoldable pub seed_problems : List String → List SeedWorkload → List String
  seed_problems seen [] = []
  seed_problems seen (s ∷ rest) =
      ((problem_if (contains seen s.id) "duplicate workload id"
          ++ problem_if
              (not (str_eq s.tier "representative")
                && not (str_eq s.tier "plausible")
                && not (str_eq s.tier "stress"))
              "workload has invalid tier")
        ++ file_problems s.files)
      ++ seed_problems (s.id ∷ seen) rest

  -- `validateSeeds`
  unfoldable pub validate_seeds : List SeedWorkload → List String
  validate_seeds seeds =
      problem_if (is_empty seeds) "at least one workload seed is required" ++ seed_problems [] seeds

  -- `validateIdentity`
  unfoldable pub validate_identity : {F : Type 0} → Manifest F → List String
  validate_identity m =
      ((problem_if (not (str_eq m.version "v1")) "version must be v1"
          ++ problem_if (str_eq (trim_space m.name) "") "name must not be empty")
        ++ problem_if
            (str_eq (trim_space m.repository) ""
              || str_eq (trim_space m.build_package) ""
              || str_eq (trim_space m.build_binary) "")
            "target repository, build.package, and build.binary are required")
      ++ problem_if (not (str_eq m.build_directory "") && outside m.build_directory)
          "target build.directory: path must be relative and stay within the sandbox"

  module _ (compiles : String → Bool) where
    abbrev pub all_compile : List String → Bool
    all_compile [] = true
    all_compile (p ∷ ps) = compiles p && all_compile ps

    -- `validateRules`: the stream is refused.
    unfoldable pub rules_fail : Stream → Bool
    rules_fail s = not (contains modes s.mode) || not (all_compile s.patterns)

    -- The loop over the files of `validateNormalization`.
    unfoldable pub files_fail : List Stream → Bool
    files_fail [] = false
    files_fail (f ∷ fs) = (outside f.path || rules_fail f) || files_fail fs

    -- `validateNormalization`
    unfoldable pub validate_normalization : Stream → Stream → List Stream → Bool
    validate_normalization stdout stderr files =
        rules_fail stdout || rules_fail stderr || files_fail files

    module _ {F : Type 0} ⦃fl : Float64 F⦄ where
      -- `semanticProblems`
      unfoldable pub semantic_problems : Manifest F → List String
      semantic_problems m =
          (((((validate_identity m ++ validate_seeds m.seeds) ++ validate_discovery_and_tiers m)
                ++ validate_sandbox m.sandbox)
              ++ validate_performance_and_policy m.performance m.optimization_policy)
            ++ validate_campaign m.campaign)
          ++ problem_if (validate_normalization m.stdout m.stderr m.files)
              "normalization is invalid"
