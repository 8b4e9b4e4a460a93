-- ===== src/Candidate/Counts.antt =====
-- internal/candidate/normalize.go: the line counts of a normalized hunk.
use Prim.Native.Char.{code}
use mathlib.Core.Path.{subst}
use mathlib.Core.Option.{some-injective}
use gotorque.Prelude.{
  sym, ◌∙◌, ℕ, ◌+◌, String, Bool, true, false, some, List, [], ◌∷◌, if◌then◌else◌, All, ◌≡◌, arith,
  ◌==◌,
}
use gotorque.Candidate.Hunks.{keep_hunk_lines, is_hunk_body_prefix, count_hunk_lines}
use gotorque.Candidate.Laws.{has_prefix, keep_hunk_lines-hunk_lines, hunk_lines-prefix}

-- A line begins with a byte.
abbrev pub begins_with : ℕ → String → Bool
begins_with b String.[] = false
begins_with b (String.◌∷◌ c s) = code c == b

-- How many lines begin with a byte.
abbrev pub lines_with : ℕ → List String → ℕ
lines_with b [] = 0
lines_with b (l ∷ ls) = (if begins_with b l then 1 else 0) + lines_with b ls

-- What a reader of the hunk counts: context and removed lines are on the old side, context and added
-- lines on the new one.
abbrev pub counted_sides : List String → ℕ × ℕ
counted_sides ls =
    (lines_with b' ' ls + lines_with b'-' ls, lines_with b' ' ls + lines_with b'+' ls)

count-prefixed :
    (ls : List String)
    → All (λ l. has_prefix l ≡ true) ls
    → count_hunk_lines ls ≡ some (counted_sides ls)
unfolding count_hunk_lines is_hunk_body_prefix
count-prefixed [] h = ground arith
count-prefixed (String.[] ∷ ls) (p, ps) = cc
count-prefixed (String.◌∷◌ c s ∷ ls) (p, ps) = rw (count-prefixed ls ps) (ground arith)

-- Counting the lines that `keepHunkLines` kept never reads an empty line, and it counts the sides as a
-- reader of the hunk does.
pub count_hunk_lines-counted_sides :
    (body kept : List String)
    → keep_hunk_lines body ≡ some kept
    → count_hunk_lines kept ≡ some (counted_sides kept)
count_hunk_lines-counted_sides body kept h =
    let same = some-injective _ _ (sym (keep_hunk_lines-hunk_lines body).0 ∙ h) in
    count-prefixed kept (subst (All λ l. has_prefix l ≡ true) same (hunk_lines-prefix body))
