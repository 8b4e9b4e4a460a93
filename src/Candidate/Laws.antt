-- ===== src/Candidate/Laws.antt =====
-- internal/candidate/normalize.go: what is proved of hunk bodies.
use mathlib.Core.Path.{subst}
use mathlib.Core.Bool.{false≢true}
use text.Mathlib.Text.{starts_with}
use gotorque.Prelude.{
  ◌||◌, sym, Bool, ℕ, zero, suc, ◌+◌, ◌≤◌, ◌<◌, String, true, false, Option, none, some, List, [],
  ◌∷◌, ◌++◌, length, is_empty, eq_iff, if◌then◌else◌, str_eq, Bool-cases, inl, inr, All, ◌≡◌, refl,
  ap, ◌∙◌, arith,
}
use gotorque.Candidate.Hunks.{
  ends_body, collect_hunk_body, is_hunk_body_prefix, first_prefix, blank_context_run, restore_blank,
  keep_run, keep_from, keep_hunk_lines,
}

-- A line that begins with the prefix of a line of a hunk.
abbrev pub has_prefix : String → Bool
has_prefix String.[] = false
has_prefix (String.◌∷◌ c s) = is_hunk_body_prefix c

-- The first byte of a line that is not empty is there.
first_prefix-has_prefix : (l : String) → str_eq l "" ≡ false → first_prefix l ≡ some (has_prefix l)
unfolding first_prefix
first_prefix-has_prefix String.[] e = absurd (false≢true (sym e))
first_prefix-has_prefix (String.◌∷◌ c s) e = refl

-- The lines of a body that belong to its hunk, told line by line: a line with a prefix is kept with
-- what is kept behind it, an empty line is a context line where something is kept behind it, and any
-- other line ends the hunk.
abbrev pub hunk_lines : List String → List String
hunk_lines [] = []
hunk_lines (l ∷ ls) =
    let rest = hunk_lines ls in
    if str_eq l ""
    then (if is_empty rest then [] else " " ∷ rest)
    else if has_prefix l
    then l ∷ rest
    else []

-- A run of empty lines against the lines that are kept.
abbrev RunOf : List String → Option (List String × List String) → Type 0
RunOf ls none = hunk_lines ls ≡ []
RunOf ls (some (run, next)) =
    (hunk_lines ls ≡ run ++ hunk_lines next)
    × (is_empty (hunk_lines next) ≡ false)
    × (length next + length run ≡ length ls)

is_empty-append : (run rest : List String) → is_empty rest ≡ false → is_empty (run ++ rest) ≡ false
is_empty-append [] rest h = h
is_empty-append (r ∷ run) rest h = refl

blank-RunOf :
    (l : String) (ls : List String) (r : Option (List String × List String))
    → str_eq l "" ≡ true
    → RunOf ls r
    → RunOf (l ∷ ls) (restore_blank r)
blank-RunOf l ls none b e = rw (b, e) refl
blank-RunOf l ls (some (run, next)) b (e, more, size) =
    let some_kept = is_empty-append run (hunk_lines next) more in
    (rw (b, e, some_kept) refl, more, omega (arith, size))

line-RunOf :
    (l : String) (ls : List String)
    → str_eq l "" ≡ false
    → RunOf (l ∷ ls) (if has_prefix l then some ([], l ∷ ls) else none)
line-RunOf l ls e = elim (Bool-cases (has_prefix l)) [
  | inl p ↦ rw (p, e, p) (refl, refl, omega arith)
  | inr p ↦ rw (p, e, p) refl
]

-- The search for the end of a run reads no empty line's first byte.
blank_context_run-RunOf :
    (ls : List String)
    → (r : Option (List String × List String)) × (blank_context_run ls ≡ some r) × RunOf ls r
unfolding blank_context_run
blank_context_run-RunOf [] = (none, refl, refl)
blank_context_run-RunOf (l ∷ ls) = elim (Bool-cases (str_eq l "")) [
  | inl e ↦
      let (r, found, run) = blank_context_run-RunOf ls in
      (restore_blank r, rw (e, found) refl, blank-RunOf l ls r e run)
  | inr e ↦ (
    if has_prefix l then some ([], l ∷ ls) else none,
    rw (e, first_prefix-has_prefix l e) refl,
    line-RunOf l ls e,
  )
]

-- A loop that keeps the hunk's lines of what is left keeps those of a body that starts with an empty
-- line.
keep_run-hunk_lines :
    (keep : List String → Option (List String)) (l : String) (ls : List String)
    (r : Option (List String × List String))
    → str_eq l "" ≡ true
    → RunOf ls r
    → ((next : List String) → length next ≤ length ls → keep next ≡ some (hunk_lines next))
    → keep_run keep (restore_blank r) ≡ some (hunk_lines (l ∷ ls))
keep_run-hunk_lines keep l ls none b e k = rw (b, e) refl
keep_run-hunk_lines keep l ls (some (run, next)) b (e, more, size) k =
    let some_kept = is_empty-append run (hunk_lines next) more in
    rw (k next (omega (arith, size)), b, e, some_kept) refl

blank_context_run-blank :
    (l : String) (ls : List String) (r : Option (List String × List String))
    → str_eq l "" ≡ true
    → blank_context_run ls ≡ some r
    → blank_context_run (l ∷ ls) ≡ some (restore_blank r)
unfolding blank_context_run
blank_context_run-blank l ls r e found = rw (e, found) refl

keep_from-hunk_lines :
    (fuel : ℕ) (body : List String)
    → length body < fuel
    → keep_from fuel body ≡ some (hunk_lines body)
unfolding keep_from
keep_from-hunk_lines zero body h = absurd (omega arith)
keep_from-hunk_lines (suc fuel) [] h = refl
keep_from-hunk_lines (suc fuel) (l ∷ ls) h =
    let left = λ (next : List String) (shorter : length next ≤ length ls).
      keep_from-hunk_lines fuel next (omega (arith, shorter, h)) in
    elim (Bool-cases (str_eq l "")) [
      | inl e ↦
          let (r, found, run) = blank_context_run-RunOf ls in
          let kept = keep_run-hunk_lines (keep_from fuel) l ls r e run left in
          rw (e, blank_context_run-blank l ls r e found) (kept ∙ rw e refl)
      | inr e ↦ elim (Bool-cases (has_prefix l)) [
        | inl p ↦ rw (e, first_prefix-has_prefix l e, p, left ls (omega arith)) refl
        | inr p ↦ rw (e, first_prefix-has_prefix l e, p) refl
      ]
    ]

space-prefix : has_prefix " " ≡ true
unfolding is_hunk_body_prefix
space-prefix = refl

pub hunk_lines-prefix : (body : List String) → All (λ l. has_prefix l ≡ true) (hunk_lines body)
hunk_lines-prefix [] = tt
hunk_lines-prefix (l ∷ ls) = elim (Bool-cases (str_eq l "")) [
  | inl e ↦ elim (Bool-cases (is_empty (hunk_lines ls))) [
    | inl none_left ↦ rw (e, none_left) tt
    | inr more ↦ rw (e, more) (space-prefix, hunk_lines-prefix ls)
  ]
  | inr e ↦ elim (Bool-cases (has_prefix l)) [
    | inl p ↦ rw (e, p) (p, hunk_lines-prefix ls)
    | inr p ↦ rw (e, p) tt
  ]
]

prefix-nonblank : (l : String) → has_prefix l ≡ true → str_eq l "" ≡ false
prefix-nonblank l p = elim (Bool-cases (str_eq l "")) [
  | inr e ↦ e
  | inl e ↦
      let absent : false ≡ true = subst (λ s. has_prefix s ≡ true) ((eq_iff l "").0 e) p in
      absurd (false≢true absent)
]

-- Lines that all have a prefix are all kept.
hunk_lines-keeps : (ls : List String) → All (λ l. has_prefix l ≡ true) ls → hunk_lines ls ≡ ls
hunk_lines-keeps [] h = refl
hunk_lines-keeps (l ∷ ls) (p, ps) = rw (prefix-nonblank l p, p, hunk_lines-keeps ls ps) refl

-- The loop of `keepHunkLines` ends for every body. It keeps the lines that belong to the hunk as told
-- line by line, each of them has a prefix of a hunk's body, and keeping them again changes nothing.
pub keep_hunk_lines-hunk_lines :
    (body : List String)
    → (keep_hunk_lines body ≡ some (hunk_lines body))
      × All (λ l. has_prefix l ≡ true) (hunk_lines body)
      × (keep_hunk_lines (hunk_lines body) ≡ some (hunk_lines body))
unfolding keep_hunk_lines
keep_hunk_lines-hunk_lines body = (
  keep_from-hunk_lines (suc (length body)) body (omega arith),
  hunk_lines-prefix body,
  keep_from-hunk_lines (suc (length (hunk_lines body))) (hunk_lines body) (omega arith)
      ∙ ap some (hunk_lines-keeps (hunk_lines body) (hunk_lines-prefix body)),
)

-- The header of a hunk, or the first line of a file section.
abbrev pub is_boundary : String → Bool
is_boundary l = starts_with l "@@ " || starts_with l "--- "

-- A boundary comes next, or nothing does.
abbrev pub AtBoundary : List String → Type 0
AtBoundary [] = Unit
AtBoundary (l ∷ ls) = is_boundary l ≡ true

-- The lines behind a hunk's header are its body, in which there is no boundary, and the lines left, of which
-- the first is one.
pub collect_hunk_body-split :
    (lines : List String)
    → let (body, next) = collect_hunk_body lines in
      (body ++ next ≡ lines) × All (λ l. is_boundary l ≡ false) body × AtBoundary next
unfolding collect_hunk_body ends_body
collect_hunk_body-split [] = (refl, tt, tt)
collect_hunk_body-split (l ∷ ls) =
    let (same, plain, header) = collect_hunk_body-split ls in
    elim (Bool-cases (is_boundary l)) [
      | inl e ↦ rw e (refl, tt, e)
      | inr e ↦ rw e (ap (◌∷◌ l) same, (e, plain), header)
    ]
