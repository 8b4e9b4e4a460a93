-- ===== src/Manifest/Laws/Guardrails.antt =====
-- internal/manifest/tradeoff.go: the guardrail that a list has for each metric.
use mathlib.Core.Path.{subst}
use gotorque.Prelude.{
  String, Bool, true, false, not, Option, none, some, List, [], ◌∷◌, ◌++◌, if◌then◌else◌, keep,
  keep-cons, ◌≡◌, refl, ◌∙◌, arith, str_eq, eq_iff, eq_refl, Bool-cases, Option-cases, inl, inr,
}
use gotorque.Manifest.Types.{Guardrail, PerformancePolicy}
use gotorque.Manifest.Tradeoff.{has_guardrail, set_guardrail, switch_guardrails}

module _ {F : Type 0} where
  -- The guardrail that a list has for a metric: the first of that name.
  abbrev pub guardrail_of : List (Guardrail F) → String → Option (Guardrail F)
  guardrail_of [] n = none
  guardrail_of (g ∷ gs) n = if str_eq g.name n then some g else guardrail_of gs n

  -- A guardrail that must hold up to a limit.
  abbrev pub required_at : F → String → Guardrail F
  required_at limit n = record { name = n; maximum_regression_percent = limit; required = true }

  abbrev or_else : Option (Guardrail F) → Guardrail F → Option (Guardrail F)
  or_else none g = some g
  or_else (some g) h = some g

  pub guardrail_of-set :
      (gs : List (Guardrail F)) (m : String) (limit : F) (n : String)
      → guardrail_of (set_guardrail gs m limit) n
        ≡ (if str_eq m n then some (required_at limit m) else guardrail_of gs n)
  unfolding set_guardrail
  guardrail_of-set [] m limit n = refl
  guardrail_of-set (g ∷ gs) m limit n = elim (Bool-cases (str_eq g.name m)) [
    | inl e ↦ rw (e, (eq_iff g.name m).0 e) (ground arith)
    | inr e ↦
        rw (e, guardrail_of-set gs m limit n)
          (ground (arith, eq_iff g.name n, eq_iff m n, eq_iff g.name m))
  ]

  guardrail_of-keep :
      (gs : List (Guardrail F)) (objective n : String)
      → guardrail_of (keep (λ (g : Guardrail F). not (str_eq g.name objective)) gs) n
        ≡ (if str_eq objective n then none else guardrail_of gs n)
  guardrail_of-keep [] objective n = ground arith
  guardrail_of-keep (g ∷ gs) objective n =
      let other = λ (h : Guardrail F). not (str_eq h.name objective) in
      elim (Bool-cases (str_eq g.name objective)) [
        | inl e ↦
            rw (keep-cons other g gs, e)
              (guardrail_of-keep gs objective n ∙ rw ((eq_iff g.name objective).0 e) (ground arith))
        | inr e ↦
            rw (keep-cons other g gs, e, guardrail_of-keep gs objective n)
              (ground (arith, eq_iff g.name n, eq_iff objective n, eq_iff g.name objective))
      ]

  guardrail_of-append :
      (gs : List (Guardrail F)) (h : Guardrail F) (n : String)
      → guardrail_of (gs ++ h ∷ []) n
        ≡ (if str_eq h.name n then or_else (guardrail_of gs n) h else guardrail_of gs n)
  guardrail_of-append [] h n = ground arith
  guardrail_of-append (g ∷ gs) h n = rw (guardrail_of-append gs h n) (ground arith)

  abbrev is_some : Option (Guardrail F) → Bool
  is_some none = false
  is_some (some g) = true

  has_guardrail-guardrail_of :
      (gs : List (Guardrail F)) (n : String) → has_guardrail gs n ≡ is_some (guardrail_of gs n)
  has_guardrail-guardrail_of [] n = refl
  has_guardrail-guardrail_of (g ∷ gs) n = rw (has_guardrail-guardrail_of gs n) (ground arith)

  -- The guardrails after the objective is switched: the new one has none, the old primary metric has
  -- its own or one at the shared limit, and any other is as it was.
  abbrev pub switched_to : String → PerformancePolicy F → String → Option (Guardrail F)
  switched_to objective p n =
      if str_eq objective n
      then none
      else if str_eq p.primary_metric n
      then or_else (guardrail_of p.guardrails n)
          (required_at p.maximum_guardrail_regression_percent n)
      else guardrail_of p.guardrails n

  switched_old :
      (objective : String) (p : PerformancePolicy F)
      → str_eq objective p.primary_metric ≡ false
      → guardrail_of (switch_guardrails objective p p.guardrails) p.primary_metric
        ≡ or_else
            (guardrail_of p.guardrails p.primary_metric)
            (required_at p.maximum_guardrail_regression_percent p.primary_metric)
  unfolding switch_guardrails
  switched_old objective p h =
      let old = p.primary_metric in
      let added = required_at p.maximum_guardrail_regression_percent old in
      let left = keep (λ (g : Guardrail F). not (str_eq g.name objective)) p.guardrails in
      let kept = guardrail_of-keep p.guardrails objective old in
      elim (Option-cases (guardrail_of p.guardrails old)) [
        | inl e ↦
            rw (has_guardrail-guardrail_of left old, kept, h, e, guardrail_of-append left added old)
              (rw (kept, h, e, eq_refl old) refl)
        | inr (g, e) ↦ rw (has_guardrail-guardrail_of left old, kept, h, e) (kept ∙ rw (h, e) refl)
      ]

  switched_other :
      (objective : String) (p : PerformancePolicy F) (n : String)
      → str_eq p.primary_metric n ≡ false
      → guardrail_of (switch_guardrails objective p p.guardrails) n
        ≡ (if str_eq objective n then none else guardrail_of p.guardrails n)
  unfolding switch_guardrails
  switched_other objective p n other =
      let old = p.primary_metric in
      let added = required_at p.maximum_guardrail_regression_percent old in
      let left = keep (λ (g : Guardrail F). not (str_eq g.name objective)) p.guardrails in
      let kept = guardrail_of-keep p.guardrails objective n in
      elim (Bool-cases (has_guardrail left old)) [
        | inl e ↦ rw e kept
        | inr e ↦ rw (e, guardrail_of-append left added n, other) kept
      ]

  pub guardrail_of-switch :
      (objective : String) (p : PerformancePolicy F) (n : String)
      → str_eq objective p.primary_metric ≡ false
      → guardrail_of (switch_guardrails objective p p.guardrails) n ≡ switched_to objective p n
  guardrail_of-switch objective p n h = elim (Bool-cases (str_eq p.primary_metric n)) [
    | inl e ↦
        subst
          (λ k.
            guardrail_of (switch_guardrails objective p p.guardrails) k ≡ switched_to objective p k)
          ((eq_iff p.primary_metric n).0 e)
          (switched_old objective p h ∙ rw (h, eq_refl p.primary_metric) refl)
    | inr e ↦ switched_other objective p n e ∙ rw e refl
  ]
