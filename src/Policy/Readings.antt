-- ===== src/Policy/Readings.antt =====
-- internal/policy/policy.go: `comparisonResults`, `indexComparisons`, the limits, and the reading
-- of one improvement.
use gotorque.Prelude.{
  String, Bool, not, ◌&&◌, ◌||◌, Option, none, some, List, [], ◌∷◌, map, foldl, if◌then◌else◌,
  str_eq, str_lt,
}
use gotorque.Float64.{Float64, finite, finite_positive}
use gotorque.Domain.{MetricComparison}
use gotorque.Policy.Types.{Config, Guardrail}

-- A map from metric names; a missing key is `none`.
abbrev pub ByName : Type 0 → Type 0
ByName F = String → Option (MetricComparison F)

-- `replicatedGuardrail`
unfoldable pub replicated_guardrail : String → Bool
replicated_guardrail name = str_eq name "peak_memory_bytes"

-- The order of `sort.SliceStable`: by metric, then by workload.
module _ {F : Type 0} where
  unfoldable pub sorts_before : MetricComparison F → MetricComparison F → Bool
  sorts_before a b =
      if not (str_eq a.metric b.metric)
      then str_lt a.metric b.metric
      else str_lt a.workload b.workload

  -- An element goes before the first one that it does not sort after: the sort is stable.
  unfoldable pub insert_sorted :
      MetricComparison F → List (MetricComparison F) → List (MetricComparison F)
  insert_sorted c [] = c ∷ []
  insert_sorted c (x ∷ xs) =
      let further = x ∷ insert_sorted c xs in if sorts_before x c then further else c ∷ (x ∷ xs)

  unfoldable pub sort_stable : List (MetricComparison F) → List (MetricComparison F)
  sort_stable [] = []
  sort_stable (c ∷ cs) = insert_sorted c (sort_stable cs)

  -- One round of the loop of `indexComparisons`: only pooled readings enter the map.
  unfoldable pub index_one : ByName F → MetricComparison F → ByName F
  index_one by_name c name =
      if str_eq c.workload ""
      then (if str_eq c.metric name then some c else by_name name)
      else by_name name

  -- `indexComparisons`
  unfoldable pub index_comparisons : List (MetricComparison F) → ByName F
  index_comparisons = foldl index_one (λ _. none)

module _ {F : Type 0} ⦃fl : Float64 F⦄ where
  -- The delta that `comparisonResults` computes for one comparison.
  unfoldable pub mean_delta : MetricComparison F → F
  mean_delta c =
      if fl.lt (fl.whole 0) c.baseline && finite c.baseline && finite c.candidate
      then fl.mul (fl.div (fl.sub c.candidate c.baseline) c.baseline) (fl.whole 100)
      else fl.nan

  unfoldable pub with_delta : MetricComparison F → MetricComparison F
  unfolding mean_delta
  with_delta c = record c { delta_percent = mean_delta c }

  -- `comparisonResults`
  unfoldable pub comparison_results : List (MetricComparison F) → List (MetricComparison F)
  comparison_results cs = sort_stable (map with_delta cs)

  -- `guardrailLimit`
  unfoldable pub guardrail_limit : Config F → Guardrail F → F
  guardrail_limit config g =
      if fl.lt (fl.whole 0) g.maximum_regression_percent
      then g.maximum_regression_percent
      else config.maximum_guardrail_regression_percent

  -- `breached`
  unfoldable pub breached : Config F → MetricComparison F → F → Bool
  breached config c limit =
      fl.lt limit c.delta_percent && (c.significant || not config.statistical_support_required)

  -- `overLimit`
  unfoldable pub over_limit : Config F → MetricComparison F → Bool
  over_limit config c = fl.lt config.maximum_guardrail_regression_percent c.delta_percent

  -- The measurements of a reading are usable: a finite positive baseline and a finite candidate.
  abbrev pub measured : MetricComparison F → Bool
  measured c = finite_positive c.baseline && finite c.candidate
