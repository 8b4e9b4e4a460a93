-- ===== src/Discovery/Laws.antt =====
-- internal/discovery/hotlist.go: the names of hot functions, against a description without the loop.
use text.Mathlib.Text.{starts_with}
use gotorque.Prelude.{
  ℕ, zero, suc, ◌+◌, String, Bool, true, false, not, ◌||◌, ◌&&◌, List, [], ◌∷◌, if◌then◌else◌,
  str_eq, contains, trim_space, ◌==◌, ◌≡◌, refl, ap, arith, Bool-cases, inl, inr,
}
use gotorque.Discovery.HotList.{
  Function, actionable_symbol, is_skipped, hot_from, hot_function_names,
}

abbrev pub take {ℓ} : {A : Type ℓ} → ℕ → List A → List A
take zero xs = []
take (suc n) [] = []
take (suc n) (x ∷ xs) = x ∷ take n xs

-- A name that a change of the target's source can address.
abbrev pub is_target : String → Bool
is_target name =
    (not (str_eq name "") && not (starts_with name "runtime.")) && actionable_symbol name

abbrev pub targets : List Function → List String
targets [] = []
targets (fn ∷ rest) =
    let name = trim_space fn.name in
    let others = targets rest in if is_target name then name ∷ others else others

-- The names that are not among others and did not come before.
abbrev pub distinct : List String → List String → List String
distinct seen [] = []
distinct seen (x ∷ xs) =
    let without = distinct seen xs in
    let after = distinct (x ∷ seen) xs in if contains seen x then without else x ∷ after

is_skipped-target :
    (seen : List String) (name : String)
    → is_skipped seen name ≡ (not (is_target name) || contains seen name)
is_skipped-target seen name = ground arith

suc-ne-zero : (n : ℕ) → (suc n == 0) ≡ false
suc-ne-zero n = ground arith

last_name : (count : ℕ) → (suc count == count + 1) ≡ true
last_name count = ground arith

not_last : (count k : ℕ) → (suc count == count + suc (suc k)) ≡ false
not_last count k = ground arith

-- Without a limit.
hot_from-zero :
    (count : ℕ) (seen : List String) (fs : List Function)
    → hot_from 0 count seen fs ≡ distinct seen (targets fs)
unfolding hot_from
hot_from-zero count seen [] = refl
hot_from-zero count seen (f ∷ fs) =
    let name = trim_space f.name in
    elim (Bool-cases (is_target name)) [
      | inr other ↦ rw (is_skipped-target seen name, other) (hot_from-zero count seen fs)
      | inl target ↦ elim (Bool-cases (contains seen name)) [
        | inl again ↦ rw (is_skipped-target seen name, target, again) (hot_from-zero count seen fs)
        | inr new ↦
            rw (is_skipped-target seen name, target, new, suc-ne-zero count)
              (ap (λ ns. name ∷ ns) (hot_from-zero (suc count) (name ∷ seen) fs))
      ]
    ]

-- With room for more names.
hot_from-room :
    (k count limit : ℕ) (e : limit ≡ count + suc k) (seen : List String) (fs : List Function)
    → hot_from limit count seen fs ≡ take (suc k) (distinct seen (targets fs))
unfolding hot_from
hot_from-room k count limit e seen [] = refl
hot_from-room zero count limit e seen (f ∷ fs) =
    let name = trim_space f.name in
    elim (Bool-cases (is_target name)) [
      | inr other ↦
          rw (is_skipped-target seen name, other) (hot_from-room zero count limit e seen fs)
      | inl target ↦ elim (Bool-cases (contains seen name)) [
        | inl again ↦
            rw (is_skipped-target seen name, target, again)
              (hot_from-room zero count limit e seen fs)
        | inr new ↦ rw (is_skipped-target seen name, target, new, e, last_name count) refl
      ]
    ]
hot_from-room (suc k) count limit e seen (f ∷ fs) =
    let name = trim_space f.name in
    elim (Bool-cases (is_target name)) [
      | inr other ↦
          rw (is_skipped-target seen name, other) (hot_from-room (suc k) count limit e seen fs)
      | inl target ↦ elim (Bool-cases (contains seen name)) [
        | inl again ↦
            rw (is_skipped-target seen name, target, again)
              (hot_from-room (suc k) count limit e seen fs)
        | inr new ↦
            rw (is_skipped-target seen name, target, new, e, not_last count k)
              (ap (λ ns. name ∷ ns)
                (hot_from-room k (suc count) limit (omega (arith, e)) (name ∷ seen) fs))
      ]
    ]

abbrev pub at_most {ℓ} : {A : Type ℓ} → ℕ → List A → List A
at_most zero xs = xs
at_most (suc n) xs = take (suc n) xs

-- The functions that are named are the distinct targets in the order of the profile, and of these only the
-- first ones up to the limit, unless the limit is zero: then all of them are.
pub hot_function_names-targets :
    (fs : List Function) (limit : ℕ)
    → hot_function_names fs limit ≡ at_most limit (distinct [] (targets fs))
unfolding hot_function_names
hot_function_names-targets fs zero = hot_from-zero 0 [] fs
hot_function_names-targets fs (suc k) = hot_from-room k 0 (suc k) (omega arith) [] fs
