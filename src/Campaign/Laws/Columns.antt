-- ===== src/Campaign/Laws/Columns.antt =====
-- internal/campaign/paired.go: what the columns of interleaved pairs hold.
use gotorque.Prelude.{
  Bool, true, ◌&&◌, Option, none, some, List, [], ◌∷◌, if◌then◌else◌, length, ◌==◌, ◌>>=◌, ◌≡◌,
  refl, ap, arith, Bool-cases, inl, inr,
}
use gotorque.Float64.{Float64, finite}
use gotorque.Campaign.Columns.{
  Columns, put_pair, usable_pair, columns_from, paired_values, pair_differences,
}

-- The results of two series, index by index.
abbrev pub pairs {ℓ} : {A : Type ℓ} → List A → List A → List (A × A)
pairs [] ys = []
pairs (x ∷ xs) [] = []
pairs (x ∷ xs) (y ∷ ys) = (x, y) ∷ pairs xs ys

abbrev put_some {ℓ} : {A : Type ℓ} → Option A → List A → List A
put_some none xs = xs
put_some (some x) xs = x ∷ xs

abbrev with_more {ℓ} : {A : Type ℓ} → A → Bool × List A → Bool × List A
with_more d (t, xs) = (t, d ∷ xs)

abbrev told {ℓ} : {A : Type ℓ} → Bool → List A → Option (Bool × List A)
told t xs = some (t, xs)

put_more :
    {A : Type 0} (d : A) (o : Option (List A)) (t : Bool) (ds : List A)
    → (o >>= λ xs. told t xs) ≡ some (true, ds)
    → ((o >>= λ xs. some (d ∷ xs)) >>= λ xs. told t xs) ≡ some (true, d ∷ ds)
put_more d none t ds e = ground (arith, e)
put_more d (some xs) t ds e = ap (λ r. r >>= λ p. some (with_more d p)) e

module _ {F : Type 0} ⦃fl : Float64 F⦄ where
  -- Candidate minus baseline, where both have a value that is finite.
  abbrev pub difference : Option F → Option F → Option F
  difference (some b) (some c) = if finite b && finite c then some (fl.sub c b) else none
  difference _ _ = none

  abbrev pub differences : {R : Type 0} → (R → Option F) → List (R × R) → List F
  differences selector [] = []
  differences selector ((b, c) ∷ rest) =
      put_some (difference (selector b) (selector c)) (differences selector rest)

  -- The differences of columns, with whether they are of pairs.
  abbrev pub column_differences : Columns F → Option (Bool × List F)
  column_differences cols = pair_differences cols.base cols.cand >>= λ ds. some (cols.ok, ds)

  put_pair-differences :
      (x y : Option F) (o : Option (Columns F)) (ds : List F)
      → (o >>= λ cols. column_differences cols) ≡ some (true, ds)
      → ((o >>= λ rest. some (put_pair (usable_pair x y) rest)) >>= λ cols. column_differences cols)
        ≡ some (true, put_some (difference x y) ds)
  unfolding pair_differences
  put_pair-differences x y none ds e = ground (arith, e)
  put_pair-differences none y (some cols) ds e = e
  put_pair-differences (some b) none (some cols) ds e = e
  put_pair-differences (some b) (some c) (some cols) ds e =
      elim (Bool-cases (finite b && finite c)) [
        | inl both ↦
            rw both (put_more (fl.sub c b) (pair_differences cols.base cols.cand) cols.ok ds e)
        | inr dropped ↦ rw dropped e
      ]

  columns_from-differences :
      {R : Type 0} (selector : R → Option F) (bs cs : List R)
      → (length bs == length cs) ≡ true
      → (columns_from selector bs cs >>= λ cols. column_differences cols)
        ≡ some (true, differences selector (pairs bs cs))
  unfolding columns_from pair_differences
  columns_from-differences selector [] cs e = refl
  columns_from-differences selector (b ∷ bs) [] e = ground (arith, e)
  columns_from-differences selector (b ∷ bs) (c ∷ cs) e =
      put_pair-differences (selector b) (selector c) (columns_from selector bs cs) _
        (columns_from-differences selector bs cs (ground (arith, e)))

  -- Two series are of pairs exactly where they have the same length. No index is out of range, and the
  -- differences of the columns are those of the pairs, in their order, in which both values are there and
  -- finite; of series that are not pairs there is none.
  pub paired_values-differences :
      {R : Type 0} (selector : R → Option F) (bs cs : List R)
      → (paired_values selector bs cs >>= λ cols. column_differences cols)
        ≡ some (
          length bs == length cs,
          if length bs == length cs then differences selector (pairs bs cs) else [],
        )
  unfolding paired_values pair_differences
  paired_values-differences selector bs cs = elim (Bool-cases (length bs == length cs)) [
    | inl e ↦ rw (e, columns_from-differences selector bs cs e) refl
    | inr e ↦ rw e refl
  ]
