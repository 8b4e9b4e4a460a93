-- ===== src/Prelude/Maps.antt =====
-- Go maps from texts as association lists, and lists of texts: of two entries of a key the first counts.
use mathlib.Core.Path.{◌≡◌, refl, sym, ap, ◌∙◌, subst}
use mathlib.Core.Bool.{Bool, false, ◌||◌}
use mathlib.Core.Option.{some-injective, Option, none, some}
use mathlib.Core.List.{List, [], ◌∷◌}
use mathlib.Core.Logic.{inl, inr}
use Prim.Native.String.{String}
use native.Mathlib.Omega.{arith}
use gotorque.Prelude.Tests.{Bool-cases, if◌then◌else◌}
use gotorque.Prelude.Lists.{All}
use gotorque.Prelude.Texts.{str_eq, str_lt}

-- `slices.Contains`
abbrev pub contains : List String → String → Bool
contains [] s = false
contains (t ∷ ts) s = str_eq t s || contains ts s

module _ {ℓ} {A : Type ℓ} where
  abbrev pub lookup : String → List (String × A) → Option A
  lookup key [] = none
  lookup key ((k, v) ∷ m) = if str_eq k key then some v else lookup key m

  pub lookup-All {κ} :
      (P : A → Type κ) (m : List (String × A)) (key : String) {value : A}
      → All (λ (e : String × A). P e.1) m
      → lookup key m ≡ some value
      → P value
  lookup-All P [] key h e = cc
  lookup-All P ((k, v) ∷ m) key (p, ps) e = elim (Bool-cases (str_eq k key)) [
    | inl same ↦
        subst P (some-injective _ _ (sym (ap (λ b. if b then some v else lookup key m) same) ∙ e)) p
    | inr other ↦
        lookup-All P m key ps (sym (ap (λ b. if b then some v else lookup key m) other) ∙ e)
  ]

  abbrev pub has_key : List (String × A) → String → Bool
  has_key [] key = false
  has_key ((k, v) ∷ m) key = str_eq k key || has_key m key

  -- `m[key] = value`
  abbrev pub set_key : String → A → List (String × A) → List (String × A)
  set_key key value [] = (key, value) ∷ []
  set_key key value ((k, v) ∷ m) =
      let rest = set_key key value m in if str_eq k key then (key, value) ∷ m else (k, v) ∷ rest

  abbrev pub keys : List (String × A) → List String
  keys [] = []
  keys ((k, v) ∷ m) = k ∷ keys m

  pub contains-keys : (m : List (String × A)) (key : String) → contains (keys m) key ≡ has_key m key
  contains-keys [] key = refl
  contains-keys ((k, v) ∷ m) key = rw (contains-keys m key) refl

-- `sort.Strings`, as the stable sort by insertion
abbrev pub insert_text : String → List String → List String
insert_text s [] = s ∷ []
insert_text s (t ∷ ts) = let rest = insert_text s ts in if str_lt t s then t ∷ rest else s ∷ t ∷ ts

abbrev pub sort_texts : List String → List String
sort_texts [] = []
sort_texts (s ∷ ss) = insert_text s (sort_texts ss)

contains-insert :
    (s : String) (ts : List String) (key : String)
    → contains (insert_text s ts) key ≡ contains (s ∷ ts) key
contains-insert s [] key = refl
contains-insert s (t ∷ ts) key = ground (arith, contains-insert s ts key)

pub contains-sort :
    (ss : List String) (key : String) → contains (sort_texts ss) key ≡ contains ss key
contains-sort [] key = refl
contains-sort (s ∷ ss) key =
    ground (arith, contains-insert s (sort_texts ss) key, contains-sort ss key)

insert-All :
    (P : String → Type 0) (s : String) (ts : List String)
    → P s
    → All P ts
    → All P (insert_text s ts)
insert-All P s [] p h = (p, tt)
insert-All P s (t ∷ ts) p (q, h) = elim (Bool-cases (str_lt t s)) [
  | inl e ↦ rw e (q, insert-All P s ts p h)
  | inr e ↦ rw e (p, (q, h))
]

pub sort-All : (P : String → Type 0) (ss : List String) → All P ss → All P (sort_texts ss)
sort-All P [] h = tt
sort-All P (s ∷ ss) (p, h) = insert-All P s (sort_texts ss) p (sort-All P ss h)

module _ {A : Type 0} where
  pub lookup-absent :
      (m : List (String × A)) (key : String) → has_key m key ≡ false → lookup key m ≡ none
  lookup-absent [] key h = refl
  lookup-absent ((k, v) ∷ m) key h = elim (Bool-cases (str_eq k key)) [
    | inl e ↦ cc
    | inr e ↦ rw e (lookup-absent m key (ground (arith, e, h)))
  ]
