-- ===== src/Manifest/Laws/Resolve.antt =====
-- internal/manifest/tradeoff.go: what `ResolveTradeoff` gives to `Apply`.
use gotorque.Prelude.{
  String, true, false, not, ◌&&◌, ◌||◌, Option, none, some, List, [], ◌∷◌, ◌≡◌, refl, ◌∙◌, arith,
  str_eq, Bool-cases, inl, inr, contains, lookup, lookup-All, has_key, set_key, keys, All,
  trim_space, cut_at,
}
use gotorque.Float64.{Float64}
use gotorque.Outcome.{Yields, Yields-bind, Yields-map, Yields-any, is_ok}
use gotorque.Manifest.Types.{PerformancePolicy}
use gotorque.Manifest.Tradeoff.{
  Tradeoff, metrics, metric_aliases, known_metric, metric_name, trim_percent, percent_of,
  parse_sides, parse_allowance, lay_over, start_from, presets, check_objective, resolve_tradeoff,
  apply, known_preset,
}
use gotorque.Manifest.Laws.Apply.{apply-refines}

-- A metric that the engine measures.
abbrev pub IsMetric : String → Type 0
IsMetric name = contains metrics name ≡ true

-- What an alias stands for, if there is one.
abbrev Aliased : Option String → Type 0
Aliased none = Unit
Aliased (some alias) = IsMetric alias

alias-Aliased : (name : String) (o : Option String) → lookup name metric_aliases ≡ o → Aliased o
alias-Aliased name none h = tt
alias-Aliased name (some alias) h =
    lookup-All IsMetric metric_aliases name
      (refl, (refl, (refl, (refl, (refl, (refl, (refl, (refl, tt)))))))) h

known_metric-IsMetric :
    (name : String) (o : Option String) → Aliased o → Yields IsMetric (known_metric name o)
unfolding known_metric
known_metric-IsMetric name (some alias) h = h
known_metric-IsMetric name none h = elim (Bool-cases (contains metrics name)) [
  | inl known ↦ rw known known
  | inr unknown ↦ rw unknown tt
]

metric_name-IsMetric : (name : String) → Yields IsMetric (metric_name name)
unfolding metric_name
metric_name-IsMetric name =
    known_metric-IsMetric (trim_space name) (lookup (trim_space name) metric_aliases)
      (alias-Aliased (trim_space name) (lookup (trim_space name) metric_aliases) refl)

set_key-All :
    {A : Type 0} (P : String → Type 0) (k : String) (v : A) (m : List (String × A))
    → P k
    → All P (keys m)
    → All P (keys (set_key k v m))
set_key-All P k v [] p h = (p, tt)
set_key-All P k v ((j, w) ∷ m) p (q, h) = elim (Bool-cases (str_eq j k)) [
  | inl e ↦ rw e (p, h)
  | inr e ↦ rw e (q, set_key-All P k v m p h)
]

-- Every allowance is of a metric that the engine measures.
abbrev pub OfMetrics : {F : Type 0} → Tradeoff F → Type 0
OfMetrics t = All IsMetric (keys t.allow)

module _ {F : Type 0} ⦃fl : Float64 F⦄ (parse_float : String → Option F) where
  sides-IsMetric :
      (sides : Option (String × String))
      → Yields (λ p. IsMetric p.0) (parse_sides parse_float sides)
  unfolding parse_sides
  sides-IsMetric none = tt
  sides-IsMetric (some (name, value)) =
      Yields-bind IsMetric (λ p. IsMetric p.0) (metric_name name) _ (metric_name-IsMetric name)
        λ metric known.
          Yields-bind (λ _. Unit) (λ p. IsMetric p.0)
            (percent_of (parse_float (trim_percent (trim_space value)))) _ (Yields-any _)
            λ percent _. known

  parse_allowance-IsMetric :
      (spec : String) → Yields (λ p. IsMetric p.0) (parse_allowance parse_float spec)
  unfolding parse_allowance
  parse_allowance-IsMetric spec = sides-IsMetric (cut_at b'=' spec)

  lay_over-OfMetrics :
      (specs : List String) (t : Tradeoff F)
      → OfMetrics t
      → Yields OfMetrics (lay_over parse_float specs t)
  unfolding lay_over
  lay_over-OfMetrics [] t h = h
  lay_over-OfMetrics (spec ∷ specs) t h =
      Yields-bind (λ p. IsMetric p.0) OfMetrics (parse_allowance parse_float spec) _
        (parse_allowance-IsMetric spec)
        λ p known.
          lay_over-OfMetrics specs (record t { allow = set_key p.0 p.1 t.allow })
            (set_key-All IsMetric p.0 p.1 t.allow known h)

  known_preset-OfMetrics :
      (preset : String) (o : Option (Tradeoff F))
      → lookup preset presets ≡ o
      → Yields OfMetrics (known_preset parse_float o)
  known_preset-OfMetrics preset none h = tt
  known_preset-OfMetrics preset (some t) h =
      lookup-All OfMetrics presets preset (tt, ((refl, (refl, tt)), ((refl, (refl, tt)), tt))) h

  start_from-OfMetrics : (preset : String) → Yields OfMetrics (start_from parse_float preset)
  unfolding start_from
  start_from-OfMetrics preset = elim (Bool-cases (str_eq preset "")) [
    | inl e ↦ rw e tt
    | inr e ↦ rw e (known_preset-OfMetrics preset (lookup preset presets) refl)
  ]

  -- A trade-off that was resolved: it allows no regression of what it improves.
  abbrev pub IsConsistent : Tradeoff F → Type 0
  IsConsistent t =
      OfMetrics t × (not (str_eq t.objective "") && has_key t.allow t.objective ≡ false)

  check_objective-IsConsistent :
      (t : Tradeoff F) → OfMetrics t → Yields IsConsistent (check_objective parse_float t)
  unfolding check_objective
  check_objective-IsConsistent t h =
      elim (Bool-cases (not (str_eq t.objective "") && has_key t.allow t.objective)) [
        | inl e ↦ rw e tt
        | inr e ↦ rw e (h, e)
      ]

  resolve-IsConsistent :
      (preset : String) (specs : List String)
      → Yields IsConsistent (resolve_tradeoff parse_float preset specs)
  unfolding resolve_tradeoff
  resolve-IsConsistent preset specs =
      Yields-bind OfMetrics IsConsistent (start_from parse_float preset) _
        (start_from-OfMetrics preset)
        λ t known.
          Yields-bind OfMetrics IsConsistent (lay_over parse_float specs t) _
            (lay_over-OfMetrics specs t known) λ laid h. check_objective-IsConsistent laid h

  applies :
      (t : Tradeoff F) (p : PerformancePolicy F)
      → IsConsistent t
      → is_ok (apply t p) ≡ (not (str_eq t.objective "") || not (has_key t.allow p.primary_metric))
  applies t p (known, consistent) =
      (apply-refines t p "").0 ∙ elim (Bool-cases (str_eq t.objective "")) [
        | inl e ↦ rw e refl
        | inr e ↦ rw e (ground (arith, consistent, e))
      ]

  -- Whatever is asked for, a trade-off that is resolved allows regressions of measured metrics only
  -- and none of the metric that it improves; and a performance block takes it unless it has no
  -- objective of its own and allows the block's primary metric to regress.
  pub resolve-applies :
      (preset : String) (specs : List String) (p : PerformancePolicy F)
      → Yields
          (λ t.
            OfMetrics t
            × (not (str_eq t.objective "") && has_key t.allow t.objective ≡ false)
            × (is_ok (apply t p)
                ≡ (not (str_eq t.objective "") || not (has_key t.allow p.primary_metric))))
          (resolve_tradeoff parse_float preset specs)
  resolve-applies preset specs p =
      Yields-map (λ t h. (h.0, h.1, applies t p h)) (resolve_tradeoff parse_float preset specs)
        (resolve-IsConsistent preset specs)
