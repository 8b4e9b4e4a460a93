-- ===== src/Candidate/Hunks.antt =====
-- internal/candidate/normalize.go: where the body of a hunk ends, which of its lines are kept, and how
-- many lines they count for.
use Prim.Native.Char.{Char, code}
use text.Mathlib.Text.{starts_with}
use gotorque.Prelude.{
  ℕ, ◌+◌, zero, suc, String, Bool, not, ◌||◌, Option, none, some, List, [], ◌∷◌, ◌++◌, length,
  if◌then◌else◌, str_eq, ◌==◌, ◌>>=◌,
}

-- Whether a line is the header of a hunk or the first line of a file section.
unfoldable pub ends_body : String → Bool
ends_body line = starts_with line "@@ " || starts_with line "--- "

-- `collectHunkBody`: the body, and the lines behind it.
unfoldable pub collect_hunk_body : List String → List String × List String
collect_hunk_body [] = ([], [])
collect_hunk_body (l ∷ ls) =
    let (body, next) = collect_hunk_body ls in
    if ends_body l then ([], l ∷ ls) else (l ∷ body, next)

-- `isHunkBodyPrefix`
unfoldable pub is_hunk_body_prefix : Char → Bool
is_hunk_body_prefix c = code c == b' ' || code c == b'+' || code c == b'-' || code c == b'\\'

-- `isHunkBodyPrefix(l[0])`; `none` is the panic of reading the first byte of an empty line.
unfoldable pub first_prefix : String → Option Bool
first_prefix String.[] = none
first_prefix (String.◌∷◌ c s) = some (is_hunk_body_prefix c)

-- One more empty line in front of a run.
abbrev pub restore_blank : Option (List String × List String) → Option (List String × List String)
restore_blank none = none
restore_blank (some (run, next)) = some (" " ∷ run, next)

-- `blankContextRun`: the run of empty lines as context lines, with the lines behind the run, or
-- nothing where the hunk does not go on behind it. The outer `none` is a panic.
unfoldable pub blank_context_run : List String → Option (Option (List String × List String))
blank_context_run [] = some none
blank_context_run (l ∷ ls) =
    let rest = blank_context_run ls in
    if str_eq l ""
    then (rest >>= λ run. some (restore_blank run))
    else (first_prefix l >>= λ fits. some (if fits then some ([], l ∷ ls) else none))

-- Lines in front of those that the rest of a loop keeps.
abbrev pub put_in_front : List String → Option (List String) → Option (List String)
put_in_front run none = none
put_in_front run (some kept) = some (run ++ kept)

-- What is kept where a body line is empty: nothing more, or the run and what follows it.
abbrev pub keep_run :
    (List String → Option (List String)) → Option (List String × List String) → Option (List String)
keep_run keep none = some []
keep_run keep (some (run, next)) = put_in_front run (keep next)

-- The loop of `keepHunkLines` on fuel; `none` is a loop that ran out of it, or a panic.
unfoldable pub keep_from : ℕ → List String → Option (List String)
keep_from zero body = none
keep_from (suc fuel) [] = some []
keep_from (suc fuel) (l ∷ ls) =
    let rest = keep_from fuel ls in
    if str_eq l ""
    then (blank_context_run (l ∷ ls) >>= λ run. keep_run (keep_from fuel) run)
    else (first_prefix l >>= λ fits. if not fits then some [] else put_in_front (l ∷ []) rest)

-- `keepHunkLines`
unfoldable pub keep_hunk_lines : List String → Option (List String)
keep_hunk_lines body = keep_from (suc (length body)) body

-- The lines that a kept line counts for on the old and on the new side, by its first byte.
abbrev pub sides : Char → ℕ × ℕ
sides c =
    if code c == b' '
    then (1, 1)
    else if code c == b'-'
    then (1, 0)
    else if code c == b'+'
    then (0, 1)
    else (0, 0)

abbrev pub add_sides : ℕ × ℕ → Option (ℕ × ℕ) → Option (ℕ × ℕ)
add_sides (old, new) none = none
add_sides (old, new) (some (olds, news)) = some (old + olds, new + news)

-- `countHunkLines`; `none` is the panic of reading the first byte of an empty line.
unfoldable pub count_hunk_lines : List String → Option (ℕ × ℕ)
count_hunk_lines [] = some (0, 0)
count_hunk_lines (String.[] ∷ ls) = none
count_hunk_lines (String.◌∷◌ c s ∷ ls) = add_sides (sides c) (count_hunk_lines ls)
