-- ===== src/Manifest/Laws/Validate.antt =====
-- internal/manifest/types.go: which seeds the semantic validation takes.
use gotorque.Prelude.{
  String, Bool, true, false, not, ◌&&◌, ◌||◌, List, [], ◌∷◌, ◌++◌, str_eq, eq_iff, is_empty,
  contains, ◌≡◌, refl, ◌∙◌, arith,
}
use gotorque.Manifest.Validate.{
  SeedWorkload, problem_if, outside, file_problems, seed_problems, validate_seeds,
}

pub is_empty-append :
    {A : Type 0} (xs ys : List A) → is_empty (xs ++ ys) ≡ (is_empty xs && is_empty ys)
is_empty-append [] ys = refl
is_empty-append (x ∷ xs) ys = refl

pub is_empty-problem_if : (b : Bool) (t : String) → is_empty (problem_if b t) ≡ not b
is_empty-problem_if true t = refl
is_empty-problem_if false t = refl

abbrev pub ids : List SeedWorkload → List String
ids [] = []
ids (s ∷ rest) = s.id ∷ ids rest

-- No text stands in a list twice.
abbrev pub no_repeat : List String → Bool
no_repeat [] = true
no_repeat (x ∷ xs) = not (contains xs x) && no_repeat xs

-- No text of a list is among others.
abbrev none_of : List String → List String → Bool
none_of seen [] = true
none_of seen (x ∷ xs) = not (contains seen x) && none_of seen xs

none_of-cons :
    (x : String) (seen xs : List String)
    → none_of (x ∷ seen) xs ≡ (none_of seen xs && not (contains xs x))
none_of-cons x seen [] = refl
none_of-cons x seen (y ∷ ys) = ground (arith, none_of-cons x seen ys, eq_iff x y, eq_iff y x)

none_of-none : (xs : List String) → none_of [] xs ≡ true
none_of-none [] = refl
none_of-none (x ∷ xs) = none_of-none xs

abbrev pub is_tier : String → Bool
is_tier t = str_eq t "representative" || str_eq t "plausible" || str_eq t "stress"

module _ (is_abs : String → Bool) (clean : String → String) where
  abbrev pub all_inside : List String → Bool
  all_inside [] = true
  all_inside (file ∷ rest) = not (outside is_abs clean file) && all_inside rest

  abbrev pub all_usable : List SeedWorkload → Bool
  all_usable [] = true
  all_usable (s ∷ rest) = (is_tier s.tier && all_inside s.files) && all_usable rest

  file_problems-inside :
      (files : List String) → is_empty (file_problems is_abs clean files) ≡ all_inside files
  unfolding file_problems
  file_problems-inside [] = refl
  file_problems-inside (f ∷ fs) =
      is_empty-append (problem_if (outside is_abs clean f) _) (file_problems is_abs clean fs)
      ∙ rw
          (
            is_empty-problem_if (outside is_abs clean f)
                "path must be relative and stay within the sandbox",
            file_problems-inside fs,
          )
          refl

  seed_problems-usable :
      (seen : List String) (seeds : List SeedWorkload)
      → is_empty (seed_problems is_abs clean seen seeds)
        ≡ ((none_of seen (ids seeds) && no_repeat (ids seeds)) && all_usable seeds)
  unfolding seed_problems
  seed_problems-usable seen [] = refl
  seed_problems-usable seen (s ∷ rest) =
      let again = problem_if (contains seen s.id) "duplicate workload id" in
      let tier =
        problem_if
          (not (str_eq s.tier "representative")
            && not (str_eq s.tier "plausible")
            && not (str_eq s.tier "stress"))
          "workload has invalid tier" in
      let files = file_problems is_abs clean s.files in
      is_empty-append ((again ++ tier) ++ files) (seed_problems is_abs clean (s.id ∷ seen) rest)
      ∙ rw
          (
            is_empty-append (again ++ tier) files,
            is_empty-append again tier,
            is_empty-problem_if (contains seen s.id) "duplicate workload id",
            is_empty-problem_if
                (not (str_eq s.tier "representative")
                  && not (str_eq s.tier "plausible")
                  && not (str_eq s.tier "stress"))
                "workload has invalid tier",
            file_problems-inside s.files,
            seed_problems-usable (s.id ∷ seen) rest,
            none_of-cons s.id seen (ids rest),
          )
          (ground arith)

  -- A list of seeds is taken exactly where there is one, no two have the same id, and each has a tier that
  -- there is and files that stay within the sandbox.
  pub validate_seeds-usable :
      (seeds : List SeedWorkload)
      → is_empty (validate_seeds is_abs clean seeds)
        ≡ (not (is_empty seeds) && (no_repeat (ids seeds) && all_usable seeds))
  unfolding validate_seeds
  validate_seeds-usable seeds =
      is_empty-append (problem_if (is_empty seeds) "at least one workload seed is required")
        (seed_problems is_abs clean [] seeds)
      ∙ rw
          (
            is_empty-problem_if (is_empty seeds) "at least one workload seed is required",
            seed_problems-usable [] seeds,
            none_of-none (ids seeds),
          )
          refl
