-- ===== src/Candidate/Normalize/Sections.antt =====
-- internal/candidate/normalize.go: the normalization of a diff, against the rules.
use text.Mathlib.Text.{starts_with}
use mathlib.Core.List.{append_assoc}
use gotorque.Prelude.{
  str_eq, eq_refl, ℕ, suc, zero, ◌≤◌, ◌<◌, String, Bool, true, false, not, ◌&&◌, Option, none, some,
  List, [], ◌∷◌, ◌++◌, length, length-append, ◌≡◌, refl, ap, arith, Bool-cases, inl, inr,
  if◌then◌else◌,
}
use gotorque.Candidate.Hunks.{collect_hunk_body}
use gotorque.Candidate.Laws.{hunk_lines, keep_hunk_lines-hunk_lines, collect_hunk_body-split}
use gotorque.Candidate.Counts.{count_hunk_lines-counted_sides}
use gotorque.Candidate.Normalize.{
  hunk_of, normalize_hunk, Section, cut_to, put_hunk, append_non_hunk, normalize_from,
  normalize_lines, has_marker, split_lines, trim_newline, join_lines, normalize_unified_diff,
}
use gotorque.Candidate.Normalize.Rules.{
  settle_held, settled_with, held_with, has_sides, corrected, Normalizes, ended, fence, section,
  plain, kept, dropped,
}
use gotorque.Candidate.Normalize.Trail.{hunk_header_trail-after_marker}

-- The index of the headers that are held back.
abbrev held_at : List String → Option (List String) → Option ℕ
held_at settled none = none
held_at settled (some held) = some (length settled)

abbrev section_of : List String → Option (List String) → Section
section_of settled held = record { out = settle_held settled held; headers = held_at settled held }

section_of-line :
    (settled : List String) (held : Option (List String)) (line : String)
    → record (section_of settled held) { out = settle_held settled held ++ line ∷ [] }
      ≡ section_of (settled_with settled held line) (held_with held line)
section_of-line settled none line = refl
section_of-line settled (some held) line =
    ap (λ ls. record { out = ls; headers = some (length settled) })
      (append_assoc settled held (line ∷ []))

cut_to-length : (xs ys : List String) → cut_to (length xs) (xs ++ ys) ≡ some xs
cut_to-length [] ys = refl
cut_to-length (x ∷ xs) ys = rw (cut_to-length xs ys) refl

-- Cutting off at the headers stays within the lines that are out.
put_hunk-dropped :
    (settled : List String) (held : Option (List String))
    → put_hunk (section_of settled held) none ≡ some (section_of settled none)
unfolding put_hunk
put_hunk-dropped settled none = refl
put_hunk-dropped settled (some held) = rw (cut_to-length settled held) refl

put_hunk-kept :
    (settled norm : List String) (held : Option (List String))
    → put_hunk (section_of settled held) (some norm)
      ≡ some (section_of (settle_held settled held ++ norm) none)
unfolding put_hunk
put_hunk-kept settled norm held = refl

-- The hunk that normalizing makes of a header and a body; nothing is read out of range.
normalize_hunk-corrected :
    (header : String) (body : List String)
    → starts_with header "@@ " ≡ true
    → normalize_hunk header body
      ≡ some (if has_sides body then some (corrected header body) else none)
unfolding normalize_hunk hunk_of
normalize_hunk-corrected header body h =
    let kept = (keep_hunk_lines-hunk_lines body).0 in
    rw
      (
        kept,
        count_hunk_lines-counted_sides body (hunk_lines body) kept,
        hunk_header_trail-after_marker header h,
      )
      (ground arith)

next-shorter : (lines : List String) → length (collect_hunk_body lines).1 ≤ length lines
next-shorter lines =
    let (body, next) = collect_hunk_body lines in
    omega (arith, length-append body next, ap length (collect_hunk_body-split lines).0)

-- What a loop ends with, as the description has it.
abbrev Ends : ℕ → List String → List String → Option (List String) → Type 0
Ends fuel lines settled held =
    (out : List String) × (normalize_from fuel lines (section_of settled held) ≡ some out)
    × Normalizes lines settled held out

hunk-Ends :
    (fuel : ℕ) (header : String) (rest settled : List String) (held : Option (List String))
    → starts_with header "@@ " ≡ true
    → (let next = (collect_hunk_body rest).1 in
        ((settled' : List String) → Ends fuel next settled' none))
    → Ends (suc fuel) (header ∷ rest) settled held
unfolding normalize_from
hunk-Ends fuel header rest settled held h loop =
    let (body, next) = collect_hunk_body rest in
    let (same, inside, at) = collect_hunk_body-split rest in
    let made = normalize_hunk-corrected header body h in
    elim (Bool-cases (has_sides body)) [
      | inl e ↦
          let (out, done, rule) = loop (settle_held settled held ++ corrected header body) in
          (
            out,
            rw (h, made, e, put_hunk-kept settled (corrected header body) held) done,
            kept body next h same inside at e rule,
          )
      | inr e ↦
          let (out, done, rule) = loop settled in
          (
            out,
            rw (h, made, e, put_hunk-dropped settled held) done,
            dropped body next h same inside at e rule,
          )
    ]

plain-Ends :
    (fuel : ℕ) (line : String) (rest settled : List String) (held : Option (List String))
    → starts_with line "@@ " ≡ false
    → ((left settled' : List String) (held' : Option (List String))
        → length left ≤ length rest
        → Ends fuel left settled' held')
    → Ends (suc fuel) (line ∷ rest) settled held
unfolding normalize_from append_non_hunk
plain-Ends fuel line [] settled held h loop = elim (Bool-cases (starts_with line "```")) [
  | inl f ↦
      let (out, done, rule) = loop [] settled held (omega arith) in
      (out, rw (h, f) done, fence f h rule)
  | inr f ↦
      let (out, done, rule) =
        loop [] (settled_with settled held line) (held_with held line) (omega arith) in
      (out, rw (h, f, section_of-line settled held line) done, plain f h refl rule)
]
plain-Ends fuel line (next ∷ rest) settled held h loop =
    elim (Bool-cases (starts_with line "```")) [
      | inl f ↦
          let (out, done, rule) = loop (next ∷ rest) settled held (omega arith) in
          (out, rw (h, f) done, fence f h rule)
      | inr f ↦ elim (Bool-cases (starts_with line "--- " && starts_with next "+++ ")) [
        | inl o ↦
            let (out, done, rule) =
              loop rest (settle_held settled held) (some (line ∷ next ∷ [])) (omega arith) in
            (out, rw (h, f, o) done, section f h o rule)
        | inr o ↦
            let (out, done, rule) =
              loop (next ∷ rest) (settled_with settled held line) (held_with held line)
                (omega arith) in
            (out, rw (h, f, o, section_of-line settled held line) done, plain f h o rule)
      ]
    ]

normalize_from-Ends :
    (fuel : ℕ) (lines settled : List String) (held : Option (List String))
    → length lines < fuel
    → Ends fuel lines settled held
unfolding normalize_from
normalize_from-Ends zero lines settled held h = absurd (omega (arith, h))
normalize_from-Ends (suc fuel) [] settled held h =
    (settle_held settled held, refl, ended settled held)
normalize_from-Ends (suc fuel) (line ∷ rest) settled held h =
    elim (Bool-cases (starts_with line "@@ ")) [
      | inl e ↦ hunk-Ends fuel line rest settled held e λ settled'.
          normalize_from-Ends fuel (collect_hunk_body rest).1 settled' none
            (omega (arith, h, next-shorter rest))
      | inr e ↦ plain-Ends fuel line rest settled held e λ left settled' held' shorter.
          normalize_from-Ends fuel left settled' held' (omega (arith, h, shorter))
    ]

-- The lines of a patch, without the empty one behind its last newline.
abbrev pub lines_of : String → List String
lines_of patch = let (line, lines) = split_lines (trim_newline patch) in line ∷ lines

-- A patch without a marker is its own normal form; of another one the lines are normalized.
abbrev pub Explains : Bool → String → String → Type 0
Explains false patch result = result ≡ patch
Explains true patch result =
    (out : List String) × Normalizes (lines_of patch) [] none out × (result ≡ join_lines out)

-- Normalizing a diff ends for every text, with no index or bound out of range, and gives what the description
-- has: Markdown fences outside a hunk go, a hunk is kept with the lines and the counts that belong to it,
-- and a hunk that is left without lines goes with the headers of its section and what follows them, where no
-- hunk of the section was kept. A text without `@@` stays as it is.
pub normalize_unified_diff-Explains :
    (patch : String)
    → (result : String) × (normalize_unified_diff patch ≡ some (result, not (str_eq result patch)))
      × Explains (has_marker patch) patch result
unfolding normalize_unified_diff normalize_lines
normalize_unified_diff-Explains patch = elim (Bool-cases (has_marker patch)) [
  | inr e ↦ (patch, rw (e, eq_refl patch) refl, rw e refl)
  | inl e ↦
      let lines = lines_of patch in
      let (out, done, rule) =
        normalize_from-Ends (suc (length lines)) lines [] none (omega arith) in
      (join_lines out, rw (e, done) refl, rw e (out, rule, refl))
]
