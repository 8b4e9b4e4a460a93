-- ===== src/Campaign/Columns.antt =====
-- internal/campaign/paired.go: the columns of two series that were measured as interleaved pairs. A result
-- and the selector of a metric are parameters; an index out of range would panic, and is `none` here.
use gotorque.Prelude.{
  Bool, true, false, ◌&&◌, Option, none, some, List, [], ◌∷◌, if◌then◌else◌, length, ◌==◌, ◌>>=◌,
}
use gotorque.Float64.{Float64, finite}

-- What `pairedValues` returns.
pub record Columns (F : Type 0) : Type 0 where
  pub base : List F
  pub cand : List F
  pub ok : Bool

abbrev pub no_columns : {F : Type 0} → Bool → Columns F
no_columns same = record { base = []; cand = []; ok = same }

-- A pair that is appended to the columns, if it is not dropped.
abbrev pub put_pair : {F : Type 0} → Option (F × F) → Columns F → Columns F
put_pair none cols = cols
put_pair (some (b, c)) cols = record cols { base = b ∷ cols.base; cand = c ∷ cols.cand }

module _ {F : Type 0} ⦃fl : Float64 F⦄ where
  -- A pair with a usable value on both sides.
  abbrev pub usable_pair : Option F → Option F → Option (F × F)
  usable_pair (some b) (some c) = if finite b && finite c then some (b, c) else none
  usable_pair _ _ = none

  -- The loop of `pairedValues`, over the results from an index on.
  unfoldable pub columns_from : {R : Type 0} → (R → Option F) → List R → List R → Option (Columns F)
  columns_from selector [] candidate = some (no_columns true)
  columns_from selector (b ∷ bs) [] = none
  columns_from selector (b ∷ bs) (c ∷ cs) = columns_from selector bs cs >>= λ rest.
      some (put_pair (usable_pair (selector b) (selector c)) rest)

  -- `pairedValues`
  unfoldable pub paired_values :
      {R : Type 0} → (R → Option F) → List R → List R → Option (Columns F)
  paired_values selector baseline candidate =
      if length baseline == length candidate
      then columns_from selector baseline candidate
      else some (no_columns false)

  -- `pairDifferences`
  unfoldable pub pair_differences : List F → List F → Option (List F)
  pair_differences [] candidate = some []
  pair_differences (b ∷ bs) [] = none
  pair_differences (b ∷ bs) (c ∷ cs) = pair_differences bs cs >>= λ rest. some (fl.sub c b ∷ rest)
