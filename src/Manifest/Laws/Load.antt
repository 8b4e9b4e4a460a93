-- ===== src/Manifest/Laws/Load.antt =====
-- internal/manifest/types.go: the validation of what is filled with the defaults.
use gotorque.Prelude.{
  String, Bool, true, false, not, ◌&&◌, ◌||◌, Option, none, some, List, if◌then◌else◌, str_eq,
  lookup, ℤ, ℕ, suc, pos, is_negative, is_zero, below_one, int_eq, ◌≡◌, refl, arith, Bool-cases,
  inl, inr,
}
use gotorque.Float64.{Float64}
use gotorque.Manifest.Types.{PerformancePolicy}
use gotorque.Manifest.Validate.{
  CampaignLimits, Manifest, or_if_zero, int_or, tier_fails, apply_performance_defaults,
  apply_campaign_defaults,
}
use gotorque.Manifest.Laws.Semantics.{one_of, campaign_fits, performance_fits, discovery_fits}

four_and : (a b c d : Bool) → (a && (b && (c && (d && true)))) ≡ (((a && b) && c) && d)
four_and a b c d = ground arith

module _ {F : Type 0} ⦃fl : Float64 F⦄ where
  -- A tier that is there, with a weight that is not negative.
  abbrev pub is_weighted : List (String × F) → String → Bool
  is_weighted weights tier = elim (lookup tier weights) [
    | none ↦ false
    | some weight ↦ not (fl.lt weight (fl.whole 0))
  ]

  abbrev pub discovery_allowed : Manifest F → Bool
  discovery_allowed m =
      (not m.discovery_enabled || (not (below_one m.max_cases) && not (below_one m.max_depth)))
      && is_weighted m.weights "representative"
      && is_weighted m.weights "plausible"
      && is_weighted m.weights "stress"

  -- Not given, or not below zero; and not given, or above zero.
  abbrev pub unset_or_not_negative : F → Bool
  unset_or_not_negative v = fl.eq v (fl.whole 0) || not (fl.lt v (fl.whole 0))

  abbrev pub unset_or_positive : F → Bool
  unset_or_positive v = fl.eq v (fl.whole 0) || not (fl.le v (fl.whole 0))

  abbrev pub performance_allowed : PerformancePolicy F → String → Bool
  performance_allowed p policy =
      (unset_or_not_negative p.minimum_improvement_percent
        && unset_or_not_negative p.maximum_guardrail_regression_percent)
      && one_of "idiomatic" "specialized" "native" policy

  abbrev pub campaign_allowed : CampaignLimits F → Bool
  campaign_allowed c =
      (not (is_negative c.max_duration)
        && not (is_negative c.max_candidate_patches)
        && (is_zero c.max_concurrent_candidates || int_eq c.max_concurrent_candidates (pos 1))
        && not (is_negative c.stop_after_failures)
        && unset_or_positive c.per_command_timeout_multiple
        && not (is_negative c.minimum_command_timeout))
      && not (is_negative c.stop_after_inconclusive)

  weight-is_weighted :
      (o : Option F)
      → not (tier_fails o) ≡ elim o [ none ↦ false | some weight ↦ not (fl.lt weight (fl.whole 0)) ]
  weight-is_weighted none = refl
  weight-is_weighted (some weight) = refl

  tier_fails-weighted :
      (weights : List (String × F)) (tier : String)
      → not (tier_fails (lookup tier weights)) ≡ is_weighted weights tier
  tier_fails-weighted weights tier = weight-is_weighted (lookup tier weights)

  pub discovery_fits-allowed : (m : Manifest F) → discovery_fits m ≡ discovery_allowed m
  discovery_fits-allowed m =
      rw
        (
          tier_fails-weighted m.weights "representative",
          tier_fails-weighted m.weights "plausible",
          tier_fails-weighted m.weights "stress",
        )
        (four_and
          (not m.discovery_enabled || (not (below_one m.max_cases) && not (below_one m.max_depth)))
          (is_weighted m.weights "representative") (is_weighted m.weights "plausible")
          (is_weighted m.weights "stress"))

below_one-int_or : (v : ℤ) (n : ℕ) → below_one (int_or v (pos (suc n))) ≡ is_negative v
below_one-int_or v n = ground arith

one-int_or : (v : ℤ) → int_eq (int_or v (pos 1)) (pos 1) ≡ (is_zero v || int_eq v (pos 1))
one-int_or v = ground arith

named-not_empty : (s : String) → str_eq (if str_eq s "" then "wall_time_ns" else s) "" ≡ false
named-not_empty s = elim (Bool-cases (str_eq s "")) [ inl e ↦ rw e refl | inr e ↦ rw (e, e) refl ]

pub first_version :
    (s : String) → str_eq (if str_eq s "" then "v1" else s) "v1" ≡ (str_eq s "" || str_eq s "v1")
first_version s = elim (Bool-cases (str_eq s "")) [ inl e ↦ rw e refl | inr e ↦ rw e refl ]

module _ {F : Type 0} ⦃fl : Float64 F⦄ (two : fl.lt (fl.whole 2) (fl.whole 0) ≡ false)
    (three : fl.lt (fl.whole 3) (fl.whole 0) ≡ false)
    (positive : fl.le (fl.whole 2) (fl.whole 0) ≡ false) where
  filled_not_negative :
      (v preset : F)
      → fl.lt preset (fl.whole 0) ≡ false
      → not (fl.lt (or_if_zero v preset) (fl.whole 0)) ≡ unset_or_not_negative v
  filled_not_negative v preset h = elim (Bool-cases (fl.eq v (fl.whole 0))) [
    | inl e ↦ rw (e, h) refl
    | inr e ↦ rw e refl
  ]

  filled_positive :
      (v preset : F)
      → fl.le preset (fl.whole 0) ≡ false
      → not (fl.le (or_if_zero v preset) (fl.whole 0)) ≡ unset_or_positive v
  filled_positive v preset h = elim (Bool-cases (fl.eq v (fl.whole 0))) [
    | inl e ↦ rw (e, h) refl
    | inr e ↦ rw e refl
  ]

  pub performance-allowed :
      (p : PerformancePolicy F) (policy : String)
      → performance_fits (apply_performance_defaults p) policy ≡ performance_allowed p policy
  unfolding apply_performance_defaults
  performance-allowed p policy =
      rw
        (
          named-not_empty p.primary_metric,
          filled_not_negative p.minimum_improvement_percent (fl.whole 3) three,
          filled_not_negative p.maximum_guardrail_regression_percent (fl.whole 2) two,
        )
        refl

  pub campaign-allowed :
      (c : CampaignLimits F) → campaign_fits (apply_campaign_defaults c) ≡ campaign_allowed c
  unfolding apply_campaign_defaults
  campaign-allowed c =
      rw
        (
          below_one-int_or c.max_duration 5399999999999,
          below_one-int_or c.max_candidate_patches 11,
          one-int_or c.max_concurrent_candidates,
          below_one-int_or c.stop_after_failures 3,
          filled_positive c.per_command_timeout_multiple (fl.whole 2) positive,
          below_one-int_or c.minimum_command_timeout 29999999999,
        )
        refl
