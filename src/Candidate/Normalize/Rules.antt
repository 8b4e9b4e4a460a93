-- ===== src/Candidate/Normalize/Rules.antt =====
-- internal/candidate/normalize.go: what a diff normalizes to, as rules that hold the headers of a file section
-- back until a hunk of it is kept.
use text.Mathlib.Text.{starts_with}
use gotorque.Prelude.{
  String, Bool, true, false, not, ◌&&◌, ◌==◌, Option, none, some, List, [], ◌∷◌, ◌++◌, All, ◌≡◌,
}
use gotorque.Candidate.Header.{parse_starts, new_header}
use gotorque.Candidate.Laws.{hunk_lines, is_boundary, AtBoundary}
use gotorque.Candidate.Counts.{counted_sides}
use gotorque.Candidate.Normalize.{behind_three}
use gotorque.Candidate.Normalize.Trail.{after_marker}

-- The lines that are settled, followed by those that are held back.
abbrev pub settle_held : List String → Option (List String) → List String
settle_held settled none = settled
settle_held settled (some held) = settled ++ held

-- One more line goes behind the lines that are held back, if there are any, and is settled otherwise.
abbrev pub settled_with : List String → Option (List String) → String → List String
settled_with settled none line = settled ++ line ∷ []
settled_with settled (some held) line = settled

abbrev pub held_with : Option (List String) → String → Option (List String)
held_with none line = none
held_with (some held) line = some (held ++ line ∷ [])

-- The two headers of a file section come next.
abbrev pub opens_section : String → List String → Bool
opens_section line [] = false
opens_section line (next ∷ _) = starts_with line "--- " && starts_with next "+++ "

-- The hunk has a line on one of the sides.
abbrev pub has_sides : List String → Bool
has_sides body = let (old, new) = counted_sides (hunk_lines body) in not (old == 0 && new == 0)

-- A hunk with the counts of the lines that belong to it.
abbrev pub corrected : String → List String → List String
corrected header body =
    let (old_start, new_start) = parse_starts header in
    let (old, new) = counted_sides (hunk_lines body) in
    new_header old_start old new_start new (after_marker (behind_three header)) ∷ hunk_lines body

-- What a diff normalizes to, with the lines that are settled and those that are held back: the headers of a
-- file section and what follows them, until a hunk is kept, or dropped and they with it.
pub data Normalizes : List String → List String → Option (List String) → List String → Type 0 where
  ended :
      (settled : List String) (held : Option (List String))
      → Normalizes [] settled held (settle_held settled held)
  fence :
      {line : String} {rest settled out : List String} {held : Option (List String)}
      → starts_with line "```" ≡ true
      → starts_with line "@@ " ≡ false
      → Normalizes rest settled held out
      → Normalizes (line ∷ rest) settled held out
  section :
      {line next : String} {rest settled out : List String} {held : Option (List String)}
      → starts_with line "```" ≡ false
      → starts_with line "@@ " ≡ false
      → opens_section line (next ∷ rest) ≡ true
      → Normalizes rest (settle_held settled held) (some (line ∷ next ∷ [])) out
      → Normalizes (line ∷ next ∷ rest) settled held out
  plain :
      {line : String} {rest settled out : List String} {held : Option (List String)}
      → starts_with line "```" ≡ false
      → starts_with line "@@ " ≡ false
      → opens_section line rest ≡ false
      → Normalizes rest (settled_with settled held line) (held_with held line) out
      → Normalizes (line ∷ rest) settled held out
  kept :
      {header : String} (body next : List String) {rest settled out : List String}
      {held : Option (List String)}
      → starts_with header "@@ " ≡ true
      → body ++ next ≡ rest
      → All (λ l. is_boundary l ≡ false) body
      → AtBoundary next
      → has_sides body ≡ true
      → Normalizes next (settle_held settled held ++ corrected header body) none out
      → Normalizes (header ∷ rest) settled held out
  dropped :
      {header : String} (body next : List String) {rest settled out : List String}
      {held : Option (List String)}
      → starts_with header "@@ " ≡ true
      → body ++ next ≡ rest
      → All (λ l. is_boundary l ≡ false) body
      → AtBoundary next
      → has_sides body ≡ false
      → Normalizes next settled none out
      → Normalizes (header ∷ rest) settled held out
