-- ===== src/Manifest/Laws/Apply.antt =====
-- internal/manifest/tradeoff.go: `Apply` against the guardrail that each metric has after it.
use gotorque.Prelude.{
  String, Bool, true, false, not, ◌&&◌, ◌||◌, Option, some, List, [], ◌∷◌, if◌then◌else◌, ◌≡◌, refl,
  sym, ap, ◌∙◌, arith, str_eq, eq_iff, Bool-cases, inl, inr, contains, has_key, keys, sort_texts,
  contains-keys, contains-sort,
}
use gotorque.Float64.{Float64}
use gotorque.Outcome.{is_ok, Yields, Yields-map}
use gotorque.Manifest.Types.{Guardrail, PerformancePolicy}
use gotorque.Manifest.Tradeoff.{
  Tradeoff, set_guardrail, switch_objective, allowed, apply_allowances, apply,
}
use gotorque.Manifest.Laws.Guardrails.{
  guardrail_of, required_at, guardrail_of-set, switched_to, guardrail_of-switch,
}

module _ {F : Type 0} ⦃fl : Float64 F⦄ where
  -- The primary metric that a trade-off judges by.
  abbrev pub primary_after : Tradeoff F → PerformancePolicy F → String
  primary_after t p = if str_eq t.objective "" then p.primary_metric else t.objective

  abbrev switches : Tradeoff F → PerformancePolicy F → Bool
  switches t p = not (str_eq t.objective "") && not (str_eq t.objective p.primary_metric)

  -- The guardrail that a metric has after a trade-off: the allowance if it has one, and otherwise what
  -- the switch of the objective left.
  abbrev pub guardrail_after : Tradeoff F → PerformancePolicy F → String → Option (Guardrail F)
  guardrail_after t p n =
      if has_key t.allow n
      then some (required_at (allowed t n) n)
      else if switches t p
      then switched_to t.objective p n
      else guardrail_of p.guardrails n

  switch-view :
      (t : Tradeoff F) (p : PerformancePolicy F) (n : String)
      → ((switch_objective t.objective p).primary_metric ≡ primary_after t p)
        × (guardrail_of (switch_objective t.objective p).guardrails n
            ≡ (if switches t p then switched_to t.objective p n else guardrail_of p.guardrails n))
  unfolding switch_objective
  switch-view t p n = elim (Bool-cases (str_eq t.objective "")) [
    | inl e ↦ rw e (refl, refl)
    | inr e ↦ elim (Bool-cases (str_eq t.objective p.primary_metric)) [
      | inl same ↦ rw (e, same) (sym ((eq_iff t.objective p.primary_metric).0 same), refl)
      | inr other ↦ rw (e, other) (refl, guardrail_of-switch t.objective p n other)
    ]
  ]

  -- One round of the loop over the allowances.
  allowance-view :
      (t : Tradeoff F) (k : String) (later : Bool) (gs : List (Guardrail F)) (n : String)
      → (if later
          then some (required_at (allowed t n) n)
          else guardrail_of (set_guardrail gs k (allowed t k)) n)
        ≡ (if str_eq k n || later then some (required_at (allowed t n) n) else guardrail_of gs n)
  allowance-view t k true gs n = ground arith
  allowance-view t k false gs n = elim (Bool-cases (str_eq k n)) [
    | inl e ↦
        rw (guardrail_of-set gs k (allowed t k) n, e)
          (ap (λ z. some (required_at (allowed t z) z)) ((eq_iff k n).0 e))
    | inr e ↦ rw (guardrail_of-set gs k (allowed t k) n, e) refl
  ]

  -- The loop over the allowances, against the metrics that are left to it.
  apply_allowances-view :
      (t : Tradeoff F) (ks : List String) (q : PerformancePolicy F) (n : String)
      → Yields
          (λ out.
            (out.primary_metric ≡ q.primary_metric)
            × (guardrail_of out.guardrails n ≡ (
                if contains ks n
                then some (required_at (allowed t n) n)
                else guardrail_of q.guardrails n)))
          (apply_allowances t ks q)
  unfolding apply_allowances
  apply_allowances-view t [] q n = (refl, refl)
  apply_allowances-view t (k ∷ ks) q n =
      let q' = record q { guardrails = set_guardrail q.guardrails k (allowed t k) } in
      elim (Bool-cases (str_eq k q.primary_metric)) [
        | inl e ↦ rw e tt
        | inr e ↦ rw e (
            Yields-map
              (λ out (same, view). (same, view ∙ allowance-view t k (contains ks n) q.guardrails n))
              (apply_allowances t ks q') (apply_allowances-view t ks q' n))
      ]

  apply_allowances-is_ok :
      (t : Tradeoff F) (ks : List String) (q : PerformancePolicy F)
      → is_ok (apply_allowances t ks q) ≡ not (contains ks q.primary_metric)
  unfolding apply_allowances
  apply_allowances-is_ok t [] q = refl
  apply_allowances-is_ok t (k ∷ ks) q = elim (Bool-cases (str_eq k q.primary_metric)) [
    | inl e ↦ rw e refl
    | inr e ↦ rw e (
        apply_allowances-is_ok t ks
          (record q { guardrails = set_guardrail q.guardrails k (allowed t k) }))
  ]

  contains-sorted :
      (m : List (String × F)) (n : String) → contains (sort_texts (keys m)) n ≡ has_key m n
  contains-sorted m n = contains-sort (keys m) n ∙ contains-keys m n

  pub apply-refines :
      (t : Tradeoff F) (p : PerformancePolicy F) (n : String)
      → (is_ok (apply t p) ≡ not (has_key t.allow (primary_after t p)))
        × Yields
            (λ out.
              (out.primary_metric ≡ primary_after t p)
              × (guardrail_of out.guardrails n ≡ guardrail_after t p n))
            (apply t p)
  unfolding apply
  apply-refines t p n =
      let ks = sort_texts (keys t.allow) in
      let switched = switch_objective t.objective p in
      let (same, view) = switch-view t p n in
      (
        apply_allowances-is_ok t ks switched
            ∙ rw (same, contains-sorted t.allow (primary_after t p)) refl,
        Yields-map
            (λ out (kept, set). (kept ∙ same, set ∙ rw (contains-sorted t.allow n, view) refl))
            (apply_allowances t ks switched) (apply_allowances-view t ks switched n),
      )
