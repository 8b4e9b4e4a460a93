-- ===== src/Manifest/Laws/Semantics.antt =====
-- internal/manifest/types.go: which manifests the semantic validation takes.
use gotorque.Prelude.{
  String, Bool, true, false, not, ◌&&◌, ◌||◌, List, [], ◌∷◌, ◌++◌, str_eq, is_empty, lookup,
  trim_space, pos, is_negative, below_one, int_eq, ◌≡◌, refl, ap, ◌∙◌, arith,
}
use gotorque.Float64.{Float64}
use gotorque.Manifest.Types.{PerformancePolicy}
use gotorque.Manifest.Validate.{
  CampaignLimits, Sandbox, Manifest, problem_if, tiers, tier_fails, tier_problems, outside,
  validate_seeds, validate_identity, validate_discovery_and_tiers, validate_filesystem_sandbox,
  validate_sandbox, validate_performance_and_policy, validate_campaign, validate_normalization,
  semantic_problems,
}
use gotorque.Manifest.Laws.Validate.{
  is_empty-append, is_empty-problem_if, ids, no_repeat, all_usable, validate_seeds-usable,
}

-- One of three texts.
abbrev pub one_of : String → String → String → String → Bool
one_of a b c s = str_eq s a || str_eq s b || str_eq s c

not-one_of :
    (a b c s : String)
    → not (not (str_eq s a) && not (str_eq s b) && not (str_eq s c)) ≡ one_of a b c s
not-one_of a b c s = ground arith

abbrev pub sandbox_fits : Sandbox → Bool
sandbox_fits s =
    (((str_eq s.network "deny" || str_eq s.network "allow")
        && (one_of "repo_and_assets" "manifest_paths" "none" s.read
            && one_of "temp_only" "manifest_paths" "any" s.write))
      && not (below_one s.max_processes))
    && not (is_negative s.max_memory_bytes)

-- Two problems, and problems behind others.
problem_then :
    (b : Bool) (t : String) (xs : List String)
    → is_empty (problem_if b t ++ xs) ≡ (not b && is_empty xs)
problem_then true t xs = refl
problem_then false t xs = refl

then_problem :
    (xs : List String) (b : Bool) (t : String)
    → is_empty (xs ++ problem_if b t) ≡ (is_empty xs && not b)
then_problem xs b t =
    is_empty-append xs (problem_if b t) ∙ ap (λ e. is_empty xs && e) (is_empty-problem_if b t)

validate_filesystem-fits :
    (s : Sandbox)
    → is_empty (validate_filesystem_sandbox s) ≡ (
        one_of "repo_and_assets" "manifest_paths" "none" s.read
        && one_of "temp_only" "manifest_paths" "any" s.write)
unfolding validate_filesystem_sandbox
validate_filesystem-fits s = ground arith

validate_sandbox-fits : (s : Sandbox) → is_empty (validate_sandbox s) ≡ sandbox_fits s
unfolding validate_sandbox
validate_sandbox-fits s =
    let network =
      problem_if (not (str_eq s.network "deny") && not (str_eq s.network "allow"))
        "sandbox.network must be deny or allow" in
    let files = network ++ validate_filesystem_sandbox s in
    let processes =
      files ++ problem_if (below_one s.max_processes) "sandbox.max_processes must be positive" in
    then_problem processes (is_negative s.max_memory_bytes)
      "sandbox.max_memory_bytes must not be negative"
    ∙ rw
        (
          then_problem files (below_one s.max_processes) "sandbox.max_processes must be positive",
          is_empty-append network (validate_filesystem_sandbox s),
          validate_filesystem-fits s,
        )
        (ground arith)

module _ {F : Type 0} ⦃fl : Float64 F⦄ where
  abbrev pub campaign_fits : CampaignLimits F → Bool
  campaign_fits c =
      (not (below_one c.max_duration)
        && not (below_one c.max_candidate_patches)
        && int_eq c.max_concurrent_candidates (pos 1)
        && not (below_one c.stop_after_failures)
        && not (fl.le c.per_command_timeout_multiple (fl.whole 0))
        && not (below_one c.minimum_command_timeout))
      && not (is_negative c.stop_after_inconclusive)

  validate_campaign-fits : (c : CampaignLimits F) → is_empty (validate_campaign c) ≡ campaign_fits c
  unfolding validate_campaign
  validate_campaign-fits c = ground arith

  abbrev pub performance_fits : PerformancePolicy F → String → Bool
  performance_fits p policy =
      (not (str_eq p.primary_metric "")
        && not (fl.lt p.minimum_improvement_percent (fl.whole 0))
        && not (fl.lt p.maximum_guardrail_regression_percent (fl.whole 0)))
      && one_of "idiomatic" "specialized" "native" policy

  validate_performance-fits :
      (p : PerformancePolicy F) (policy : String)
      → is_empty (validate_performance_and_policy p policy) ≡ performance_fits p policy
  unfolding validate_performance_and_policy
  validate_performance-fits p policy = ground arith

  abbrev pub all_weighted : List (String × F) → List String → Bool
  all_weighted weights [] = true
  all_weighted weights (tier ∷ rest) =
      not (tier_fails (lookup tier weights)) && all_weighted weights rest

  tier_problems-weighted :
      (weights : List (String × F)) (ts : List String)
      → is_empty (tier_problems weights ts) ≡ all_weighted weights ts
  unfolding tier_problems
  tier_problems-weighted weights [] = refl
  tier_problems-weighted weights (t ∷ ts) =
      problem_then (tier_fails (lookup t weights)) "tier must exist with a non-negative weight"
        (tier_problems weights ts)
      ∙ ap (λ e. not (tier_fails (lookup t weights)) && e) (tier_problems-weighted weights ts)

  abbrev pub discovery_fits : Manifest F → Bool
  discovery_fits m =
      (not m.discovery_enabled || (not (below_one m.max_cases) && not (below_one m.max_depth)))
      && all_weighted m.weights tiers

  validate_discovery-fits :
      (m : Manifest F) → is_empty (validate_discovery_and_tiers m) ≡ discovery_fits m
  unfolding validate_discovery_and_tiers
  validate_discovery-fits m =
      problem_then (m.discovery_enabled && (below_one m.max_cases || below_one m.max_depth))
        "enabled discovery requires positive max_cases and max_depth"
        (tier_problems m.weights tiers)
      ∙ rw (tier_problems-weighted m.weights tiers) (ground arith)

module _ (is_abs : String → Bool) (clean : String → String) where
  abbrev pub identity_fits : {F : Type 0} → Manifest F → Bool
  identity_fits m =
      ((str_eq m.version "v1" && not (str_eq (trim_space m.name) ""))
        && (not (str_eq (trim_space m.repository) "")
            && not (str_eq (trim_space m.build_package) "")
            && not (str_eq (trim_space m.build_binary) "")))
      && (str_eq m.build_directory "" || not (outside is_abs clean m.build_directory))

  validate_identity-fits :
      {F : Type 0} (m : Manifest F) → is_empty (validate_identity is_abs clean m) ≡ identity_fits m
  unfolding validate_identity
  validate_identity-fits m = ground arith

  module _ (compiles : String → Bool) {F : Type 0} ⦃fl : Float64 F⦄ where
    -- There is no problem exactly where each part fits.
    pub semantic_problems-fits :
        (m : Manifest F)
        → is_empty (semantic_problems is_abs clean compiles m) ≡ (
            (((((identity_fits m
                      && (not (is_empty m.seeds)
                          && (no_repeat (ids m.seeds) && all_usable is_abs clean m.seeds)))
                    && discovery_fits m)
                  && sandbox_fits m.sandbox)
                && performance_fits m.performance m.optimization_policy)
              && campaign_fits m.campaign)
            && not (validate_normalization is_abs clean compiles m.stdout m.stderr m.files))
    unfolding semantic_problems
    semantic_problems-fits m =
        let identity = validate_identity is_abs clean m in
        let seeds = identity ++ validate_seeds is_abs clean m.seeds in
        let discovery = seeds ++ validate_discovery_and_tiers m in
        let sandbox = discovery ++ validate_sandbox m.sandbox in
        let performance =
          sandbox ++ validate_performance_and_policy m.performance m.optimization_policy in
        let campaign = performance ++ validate_campaign m.campaign in
        then_problem campaign
          (validate_normalization is_abs clean compiles m.stdout m.stderr m.files)
          "normalization is invalid"
        ∙ rw
            (
              is_empty-append performance (validate_campaign m.campaign),
              is_empty-append sandbox
                  (validate_performance_and_policy m.performance m.optimization_policy),
              is_empty-append discovery (validate_sandbox m.sandbox),
              is_empty-append seeds (validate_discovery_and_tiers m),
              is_empty-append identity (validate_seeds is_abs clean m.seeds),
              validate_identity-fits m,
              validate_seeds-usable is_abs clean m.seeds,
              validate_discovery-fits m,
              validate_sandbox-fits m.sandbox,
              validate_performance-fits m.performance m.optimization_policy,
              validate_campaign-fits m.campaign,
            )
            refl
