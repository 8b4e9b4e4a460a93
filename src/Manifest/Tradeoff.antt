-- ===== src/Manifest/Tradeoff.antt =====
-- internal/manifest/tradeoff.go: what one campaign may give up for its improvement. Parsing a number
-- (`strconv.ParseFloat`) is a parameter; the texts of errors leave out the values that they quote.
use Prim.Native.Char.{code}
use gotorque.Prelude.{
  String, Bool, true, false, not, ◌&&◌, ◌||◌, Option, none, some, List, [], ◌∷◌, ◌++◌,
  if◌then◌else◌, str_eq, keep, is_empty, contains, lookup, has_key, set_key, keys, sort_texts,
  trim_space, ◌==◌, cut_at,
}
use gotorque.Float64.{Float64}
use gotorque.Manifest.Types.{Guardrail, PerformancePolicy}
use gotorque.Outcome.{Outcome, ok, err, ◌>>=◌}

-- `Tradeoff`; a nil map is an empty one.
pub record Tradeoff (F : Type 0) : Type 0 where
  pub name : String
  pub objective : String
  pub allow : List (String × F)

abbrev pub no_tradeoff : {F : Type 0} → Tradeoff F
no_tradeoff = record { name = ""; objective = ""; allow = [] }

-- `Metrics`
abbrev pub metrics : List String
metrics = "wall_time_ns" ∷ "cpu_time_ns" ∷ "peak_memory_bytes" ∷ "binary_size_bytes" ∷ []

-- `metricAliases`
abbrev pub metric_aliases : List (String × String)
metric_aliases =
    ("wall", "wall_time_ns")
    ∷ ("speed", "wall_time_ns")
    ∷ ("time", "wall_time_ns")
    ∷ ("cpu", "cpu_time_ns")
    ∷ ("memory", "peak_memory_bytes")
    ∷ ("mem", "peak_memory_bytes")
    ∷ ("size", "binary_size_bytes")
    ∷ ("binary", "binary_size_bytes")
    ∷ []

-- `MetricName` of a trimmed name, with the alias that it is, if any.
unfoldable pub known_metric : String → Option String → Outcome String
known_metric name (some alias) = ok alias
known_metric name none = if contains metrics name then ok name else err "unknown metric"

-- `MetricName`
unfoldable pub metric_name : String → Outcome String
metric_name name =
    let trimmed = trim_space name in known_metric trimmed (lookup trimmed metric_aliases)

-- `strings.TrimSuffix(value, "%")`
unfoldable pub trim_percent : String → String
trim_percent String.[] = String.[]
trim_percent (String.◌∷◌ c String.[]) = if code c == b'%' then String.[] else String.◌∷◌ c String.[]
trim_percent (String.◌∷◌ c (String.◌∷◌ d s)) = String.◌∷◌ c (trim_percent (String.◌∷◌ d s))

module _ {F : Type 0} where
  -- `Tradeoff.IsZero`
  unfoldable pub is_zero : Tradeoff F → Bool
  is_zero t = str_eq t.objective "" && is_empty t.allow

  abbrev pub has_guardrail : List (Guardrail F) → String → Bool
  has_guardrail [] name = false
  has_guardrail (g ∷ gs) name = str_eq g.name name || has_guardrail gs name

  -- `setGuardrail`
  unfoldable pub set_guardrail : List (Guardrail F) → String → F → List (Guardrail F)
  set_guardrail [] metric percent =
      record { name = metric; maximum_regression_percent = percent; required = true } ∷ []
  set_guardrail (g ∷ gs) metric percent =
      let rest = set_guardrail gs metric percent in
      if str_eq g.name metric
      then record g { maximum_regression_percent = percent; required = true } ∷ gs
      else g ∷ rest

  -- The guardrails once the objective is switched away from the old primary metric.
  unfoldable pub switch_guardrails :
      String → PerformancePolicy F → List (Guardrail F) → List (Guardrail F)
  switch_guardrails objective p guardrails =
      let left = keep (λ (g : Guardrail F). not (str_eq g.name objective)) guardrails in
      if not (has_guardrail left p.primary_metric)
      then left
        ++ record {
          name = p.primary_metric;
          maximum_regression_percent = p.maximum_guardrail_regression_percent;
          required = true;
        }
          ∷ []
      else left

  -- The switch of the objective in `Apply`.
  unfoldable pub switch_objective : String → PerformancePolicy F → PerformancePolicy F
  switch_objective objective p =
      if not (str_eq objective "") && not (str_eq objective p.primary_metric)
      then record p {
        primary_metric = objective;
        guardrails = switch_guardrails objective p p.guardrails;
      }
      else p

module _ {F : Type 0} ⦃fl : Float64 F⦄ where
  -- `Presets`
  abbrev pub presets : List (String × Tradeoff F)
  presets =
      ("balanced", record { name = "balanced"; objective = ""; allow = [] })
      ∷ (
        "speed",
        record {
          name = "speed";
          objective = "wall_time_ns";
          allow = ("peak_memory_bytes", fl.whole 10) ∷ ("cpu_time_ns", fl.whole 5) ∷ [];
        },
      )
      ∷ (
        "lean",
        record {
          name = "lean";
          objective = "peak_memory_bytes";
          allow = ("wall_time_ns", fl.whole 3) ∷ ("cpu_time_ns", fl.whole 3) ∷ [];
        },
      )
      ∷ []

  -- The percent of an allowance, once it is parsed.
  abbrev pub percent_of : Option F → Outcome F
  percent_of none = err "want a non-negative percent"
  percent_of (some percent) =
      if fl.lt percent (fl.whole 0) then err "want a non-negative percent" else ok percent

  module _ (parse_float : String → Option F) where
    -- `ParseAllowance` of the two sides of an allowance.
    unfoldable pub parse_sides : Option (String × String) → Outcome (String × F)
    parse_sides none = err "want metric=percent, like memory=5%"
    parse_sides (some (name, value)) = metric_name name >>= λ metric.
        percent_of (parse_float (trim_percent (trim_space value))) >>= λ percent.
        ok (metric, percent)

    -- `ParseAllowance`
    unfoldable pub parse_allowance : String → Outcome (String × F)
    parse_allowance spec = parse_sides (cut_at b'=' spec)

    -- The loop of `ResolveTradeoff` over the allowances.
    unfoldable pub lay_over : List String → Tradeoff F → Outcome (Tradeoff F)
    lay_over [] t = ok t
    lay_over (spec ∷ specs) t =
        parse_allowance spec >>= λ p. lay_over specs (record t { allow = set_key p.0 p.1 t.allow })

    -- A preset that was looked up.
    abbrev pub known_preset : Option (Tradeoff F) → Outcome (Tradeoff F)
    known_preset (some t) = ok t
    known_preset none = err "unknown trade-off"

    -- The trade-off that `ResolveTradeoff` starts from.
    unfoldable pub start_from : String → Outcome (Tradeoff F)
    start_from preset =
        if str_eq preset "" then ok no_tradeoff else known_preset (lookup preset presets)

    -- The last test of `ResolveTradeoff`.
    unfoldable pub check_objective : Tradeoff F → Outcome (Tradeoff F)
    check_objective t =
        if not (str_eq t.objective "") && has_key t.allow t.objective
        then err "cannot allow a metric to regress while improving it"
        else ok t

    -- `ResolveTradeoff`
    unfoldable pub resolve_tradeoff : String → List String → Outcome (Tradeoff F)
    resolve_tradeoff preset allowances =
        start_from preset >>= λ t. lay_over allowances t >>= λ laid. check_objective laid

  -- `t.Allow[metric]`
  abbrev pub allowed : Tradeoff F → String → F
  allowed t metric = elim (lookup metric t.allow) [ some percent ↦ percent | none ↦ fl.whole 0 ]

  -- The loop of `Apply` over the allowances.
  unfoldable pub apply_allowances :
      Tradeoff F → List String → PerformancePolicy F → Outcome (PerformancePolicy F)
  apply_allowances t [] out = ok out
  apply_allowances t (metric ∷ rest) out =
      if str_eq metric out.primary_metric
      then err "cannot allow a metric to regress while improving it"
      else apply_allowances t rest
          (record out { guardrails = set_guardrail out.guardrails metric (allowed t metric) })

  -- `Tradeoff.Apply`
  unfoldable pub apply : Tradeoff F → PerformancePolicy F → Outcome (PerformancePolicy F)
  apply t p = apply_allowances t (sort_texts (keys t.allow)) (switch_objective t.objective p)
