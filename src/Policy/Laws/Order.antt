-- ===== src/Policy/Laws/Order.antt =====
-- internal/policy/policy.go: the order that `comparisonResults` gives.
use mathlib.Core.Bool.{false≢true}
use gotorque.Prelude.{
  eq_refl, true, false, List, [], ◌∷◌, map, ◌≡◌, refl, ap, ◌∙◌, inl, inr, arith, Bool-cases,
  str_lt_asymm, eq_iff, String, Bool, keep, keep-cons, str_lt, str_eq, str_lt_total, ◌&&◌, ◌||◌,
  if◌then◌else◌, sym,
}
use gotorque.Float64.{Float64, finite, finite_positive}
use gotorque.Domain.{MetricComparison}
use gotorque.Policy.Readings.{
  sorts_before, insert_sorted, sort_stable, with_delta, mean_delta, comparison_results,
}

both_true : {a b : Bool} → (a && b) ≡ true → (a ≡ true) × (b ≡ true)
both_true {a = true} {b} h = (refl, h)
both_true {a = false} {b} h = absurd (false≢true h)

str_lt_irrefl : (s : String) → str_lt s s ≡ false
str_lt_irrefl s = elim (Bool-cases (str_lt s s)) [ inl e ↦ str_lt_asymm s s e | inr e ↦ e ]

-- Of two elements at most one is kept, so their order is not seen.
apart {ℓ} :
    {A : Type ℓ} (x c : A) (xs : List A) (p q : Bool)
    → (p ≡ true → q ≡ true → ⊥)
    → (if p then x ∷ (if q then c ∷ xs else xs) else (if q then c ∷ xs else xs))
      ≡ (if q then c ∷ (if p then x ∷ xs else xs) else (if p then x ∷ xs else xs))
apart x c xs true true h = absurd (h refl refl)
apart x c xs true false h = refl
apart x c xs false true h = refl
apart x c xs false false h = refl

module _ {F : Type 0} where
  sorts_before_asymm :
      (a b : MetricComparison F) → sorts_before a b ≡ true → sorts_before b a ≡ false
  unfolding sorts_before
  sorts_before_asymm a b h = ground (
    arith,
    eq_iff a.metric b.metric,
    eq_iff b.metric a.metric,
    str_lt_asymm a.metric b.metric,
    str_lt_asymm a.workload b.workload,
  )

  -- The first of a list, if there is one, does not sort before `c`.
  abbrev NotBefore : MetricComparison F → List (MetricComparison F) → Type 0
  NotBefore c [] = Unit
  NotBefore c (x ∷ xs) = sorts_before x c ≡ false

  -- No element sorts before the one in front of it.
  abbrev IsSorted : List (MetricComparison F) → Type 0
  IsSorted [] = Unit
  IsSorted (x ∷ xs) = NotBefore x xs × IsSorted xs

  NotBefore-insert :
      (x c : MetricComparison F) (xs : List (MetricComparison F))
      → sorts_before x c ≡ true
      → NotBefore x xs
      → NotBefore x (insert_sorted c xs)
  unfolding insert_sorted
  NotBefore-insert x c [] h n = sorts_before_asymm x c h
  NotBefore-insert x c (y ∷ ys) h n = ground (arith, sorts_before_asymm x c h)

  insert-IsSorted :
      (c : MetricComparison F) (xs : List (MetricComparison F))
      → IsSorted xs
      → IsSorted (insert_sorted c xs)
  unfolding insert_sorted
  insert-IsSorted c [] h = (tt, tt)
  insert-IsSorted c (x ∷ xs) (n, h) = elim (Bool-cases (sorts_before x c)) [
    | inl e ↦ rw e (NotBefore-insert x c xs e n, insert-IsSorted c xs h)
    | inr e ↦ rw e (e, (n, h))
  ]

  sort-IsSorted : (xs : List (MetricComparison F)) → IsSorted (sort_stable xs)
  unfolding sort_stable
  sort-IsSorted [] = tt
  sort-IsSorted (x ∷ xs) = insert-IsSorted x (sort_stable xs) (sort-IsSorted xs)

  insert_first :
      (c : MetricComparison F) (xs : List (MetricComparison F))
      → NotBefore c xs
      → insert_sorted c xs ≡ c ∷ xs
  unfolding insert_sorted
  insert_first c [] n = refl
  insert_first c (x ∷ xs) n = rw n

  sort_sorted : (xs : List (MetricComparison F)) → IsSorted xs → sort_stable xs ≡ xs
  unfolding sort_stable
  sort_sorted [] h = refl
  sort_sorted (x ∷ xs) (n, h) = rw (sort_sorted xs h) (insert_first x xs n)

  -- By metric, and by workload among the readings of a metric.
  abbrev pub in_order : MetricComparison F → MetricComparison F → Bool
  in_order a b =
      str_lt a.metric b.metric
      || (str_eq a.metric b.metric
          && (str_lt a.workload b.workload || str_eq a.workload b.workload))

  abbrev pub InOrder : List (MetricComparison F) → Type 0
  InOrder [] = Unit
  InOrder (x ∷ []) = Unit
  InOrder (x ∷ y ∷ ys) = (in_order x y ≡ true) × InOrder (y ∷ ys)

  sorts_before-in_order :
      (a b : MetricComparison F) → sorts_before b a ≡ false → in_order a b ≡ true
  unfolding sorts_before
  sorts_before-in_order a b h = ground (
    arith,
    eq_iff a.metric b.metric,
    eq_iff b.metric a.metric,
    str_lt_total a.metric b.metric,
    str_lt_total a.workload b.workload,
  )

  IsSorted-InOrder : (xs : List (MetricComparison F)) → IsSorted xs → InOrder xs
  IsSorted-InOrder [] h = tt
  IsSorted-InOrder (x ∷ []) h = tt
  IsSorted-InOrder (x ∷ y ∷ ys) (n, h) = (sorts_before-in_order x y n, IsSorted-InOrder (y ∷ ys) h)

  -- The readings of one metric on one workload.
  abbrev pub is_of : String → String → MetricComparison F → Bool
  is_of metric workload c = str_eq c.metric metric && str_eq c.workload workload

  -- A reading does not sort before another one of the same metric and workload.
  is_of-sorts_before :
      (metric workload : String) (a b : MetricComparison F)
      → is_of metric workload a ≡ true
      → is_of metric workload b ≡ true
      → sorts_before a b ≡ false
  unfolding sorts_before
  is_of-sorts_before metric workload a b h k =
      let (metric_a, workload_a) = both_true h in
      let (metric_b, workload_b) = both_true k in
      rw
        (
          (eq_iff a.metric metric).0 metric_a,
          (eq_iff b.metric metric).0 metric_b,
          (eq_iff a.workload workload).0 workload_a,
          (eq_iff b.workload workload).0 workload_b,
          eq_refl metric,
        )
        (str_lt_irrefl workload)

  keep-insert :
      (metric workload : String) (c : MetricComparison F) (xs : List (MetricComparison F))
      → keep (is_of metric workload) (insert_sorted c xs) ≡ keep (is_of metric workload) (c ∷ xs)
  unfolding insert_sorted
  keep-insert metric workload c [] = refl
  keep-insert metric workload c (x ∷ xs) = elim (Bool-cases (sorts_before x c)) [
    | inr e ↦ rw e refl
    | inl e ↦
        rw
          (
            e,
            keep-cons (is_of metric workload) x (insert_sorted c xs),
            keep-insert metric workload c xs,
            keep-cons (is_of metric workload) c (x ∷ xs),
            keep-cons (is_of metric workload) c xs,
            keep-cons (is_of metric workload) x xs,
          )
          (apart x c (keep (is_of metric workload) xs) (is_of metric workload x)
            (is_of metric workload c)
            λ h k. false≢true (sym (is_of-sorts_before metric workload x c h k) ∙ e))
  ]

  keep-sort :
      (metric workload : String) (xs : List (MetricComparison F))
      → keep (is_of metric workload) (sort_stable xs) ≡ keep (is_of metric workload) xs
  unfolding sort_stable
  keep-sort metric workload [] = refl
  keep-sort metric workload (x ∷ xs) =
      keep-insert metric workload x (sort_stable xs)
      ∙ keep-cons (is_of metric workload) x (sort_stable xs)
      ∙ ap (λ ls. if is_of metric workload x then x ∷ ls else ls) (keep-sort metric workload xs)
      ∙ sym (keep-cons (is_of metric workload) x xs)

module _ {F : Type 0} ⦃fl : Float64 F⦄ where
  sorts_before-with_delta :
      (a b : MetricComparison F) → sorts_before (with_delta a) (with_delta b) ≡ sorts_before a b
  unfolding sorts_before with_delta
  sorts_before-with_delta a b = refl

  with_delta-insert :
      (c : MetricComparison F) (xs : List (MetricComparison F))
      → map with_delta (insert_sorted c xs) ≡ insert_sorted (with_delta c) (map with_delta xs)
  unfolding insert_sorted
  with_delta-insert c [] = refl
  with_delta-insert c (x ∷ xs) = elim (Bool-cases (sorts_before x c)) [
    | inl e ↦ rw (sorts_before-with_delta x c, e) (ap (◌∷◌ (with_delta x)) (with_delta-insert c xs))
    | inr e ↦ rw (sorts_before-with_delta x c, e)
  ]

  with_delta-sort :
      (xs : List (MetricComparison F))
      → map with_delta (sort_stable xs) ≡ sort_stable (map with_delta xs)
  unfolding sort_stable
  with_delta-sort [] = refl
  with_delta-sort (x ∷ xs) =
      with_delta-insert x (sort_stable xs) ∙ ap (insert_sorted (with_delta x)) (with_delta-sort xs)

  with_delta_twice :
      (xs : List (MetricComparison F)) → map with_delta (map with_delta xs) ≡ map with_delta xs
  unfolding with_delta
  with_delta_twice [] = refl
  with_delta_twice (x ∷ xs) = ap (◌∷◌ (with_delta x)) (with_delta_twice xs)

  -- A reading with the change of its means in percent, or with no number where they are no measurement.
  abbrev pub remeasured : MetricComparison F → MetricComparison F
  remeasured c = record c {
    delta_percent =
        if finite_positive c.baseline && finite c.candidate
        then fl.mul (fl.div (fl.sub c.candidate c.baseline) c.baseline) (fl.whole 100)
        else fl.nan;
  }

  with_delta-remeasured : (cs : List (MetricComparison F)) → map with_delta cs ≡ map remeasured cs
  unfolding with_delta mean_delta finite_positive
  with_delta-remeasured [] = refl
  with_delta-remeasured (c ∷ cs) = ap (◌∷◌ (remeasured c)) (with_delta-remeasured cs)

  -- The result is in the order of metric and workload. Of each metric on each workload it has the readings
  -- that were given, in the order in which they were given, with their deltas recomputed from their means.
  -- Doing it again changes nothing.
  pub comparison_results_lem :
      (cs : List (MetricComparison F)) (metric workload : String)
      → InOrder (comparison_results cs)
        × (keep (is_of metric workload) (comparison_results cs)
            ≡ keep (is_of metric workload) (map remeasured cs))
        × (comparison_results (comparison_results cs) ≡ comparison_results cs)
  unfolding comparison_results
  comparison_results_lem cs metric workload = (
    IsSorted-InOrder (sort_stable (map with_delta cs)) (sort-IsSorted (map with_delta cs)),
    keep-sort metric workload (map with_delta cs)
        ∙ ap (keep (is_of metric workload)) (with_delta-remeasured cs),
    rw (with_delta-sort (map with_delta cs), with_delta_twice cs)
        (sort_sorted (sort_stable (map with_delta cs)) (sort-IsSorted (map with_delta cs))),
  )
