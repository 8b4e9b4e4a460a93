-- ===== src/Candidate/Tests.antt =====
-- internal/candidate/normalize.go: a sample hunk, and the theorems at it.
use gotorque.Prelude.{
  str_eq, not, split_word, fields, cut_at, String, true, some, List, [], ◌∷◌, All, ◌≡◌, refl,
}
use gotorque.Candidate.Header.{new_header, parse_starts, read_starts, field_start, str_to_pos_int}
use gotorque.Candidate.Header.RoundTrip.{parse_starts-new_header}
use gotorque.Candidate.Normalize.{
  normalize_unified_diff, normalize_lines, normalize_from, append_non_hunk, put_hunk,
  normalize_hunk, hunk_of, hunk_header_trail, index_marker, has_marker,
}
use gotorque.Candidate.Normalize.Sections.{Explains, normalize_unified_diff-Explains}
use gotorque.Candidate.Hunks.{
  ends_body, collect_hunk_body, is_hunk_body_prefix, first_prefix, blank_context_run, keep_from,
  keep_hunk_lines, count_hunk_lines,
}
use gotorque.Candidate.Counts.{counted_sides, count_hunk_lines-counted_sides}
use gotorque.Candidate.Laws.{has_prefix, hunk_lines, keep_hunk_lines-hunk_lines}

-- A body with a blank source line, an explanation behind the hunk, and a second hunk.
abbrev sample_lines : List String
sample_lines =
    " func f() {" ∷ "-\tx := 1" ∷ "" ∷ "+\tx := 2" ∷ "" ∷ "This patch" ∷ "@@ -9 +9 @@" ∷ " }" ∷ []

abbrev sample_body : List String
sample_body = " func f() {" ∷ "-\tx := 1" ∷ "" ∷ "+\tx := 2" ∷ "" ∷ "This patch" ∷ []

abbrev sample_result : List String
sample_result = " func f() {" ∷ "-\tx := 1" ∷ " " ∷ "+\tx := 2" ∷ []

sample_kept : keep_hunk_lines sample_body ≡ some sample_result
unfolding keep_hunk_lines keep_from first_prefix blank_context_run is_hunk_body_prefix
sample_kept = refl

keep_hunk_lines-hunk_lines_example :
    (keep_hunk_lines sample_body ≡ some (hunk_lines sample_body))
    × All (λ l. has_prefix l ≡ true) (hunk_lines sample_body)
    × (keep_hunk_lines (hunk_lines sample_body) ≡ some (hunk_lines sample_body))
keep_hunk_lines-hunk_lines_example = keep_hunk_lines-hunk_lines sample_body

count_hunk_lines-counted_sides_example :
    count_hunk_lines sample_result ≡ some (counted_sides sample_result)
count_hunk_lines-counted_sides_example =
    count_hunk_lines-counted_sides sample_body sample_result sample_kept

parse_starts-new_header_example :
    parse_starts (new_header "120" 6 "121" 7 " func f(x int) int { return x -1 }")
    ≡ read_starts (split_word " func f(x int) int { return x -1 }").1 ("120", "121")
unfolding str_to_pos_int
parse_starts-new_header_example =
    parse_starts-new_header "120" 6 "121" 7 " func f(x int) int { return x -1 }" refl refl

-- The `-1` of the trail is read as the old start.
start_of_trail : parse_starts "@@ -120,6 +121,7 @@ return x -1" ≡ ("1", "121")
unfolding parse_starts fields split_word read_starts field_start cut_at str_to_pos_int
start_of_trail = refl

abbrev fenced : String
fenced = "```\n--- a/f\n+++ b/f\n@@ -9 +9 @@\n-a\n+b"

normalize_unified_diff-Explains_example :
    (result : String) × (normalize_unified_diff fenced ≡ some (result, not (str_eq result fenced)))
    × Explains (has_marker fenced) fenced result
normalize_unified_diff-Explains_example = normalize_unified_diff-Explains fenced

-- A hunk without lines goes with the headers of its section.
emptied :
    normalize_lines ("--- a/f" ∷ "+++ b/f" ∷ "@@ -9 +9 @@" ∷ "text" ∷ "--- a/g" ∷ "+++ b/g" ∷ [])
    ≡ some ("--- a/g" ∷ "+++ b/g" ∷ [])
unfolding normalize_lines normalize_from append_non_hunk put_hunk normalize_hunk hunk_of
    parse_starts fields split_word read_starts field_start cut_at str_to_pos_int keep_hunk_lines
    keep_from first_prefix blank_context_run is_hunk_body_prefix count_hunk_lines collect_hunk_body
    ends_body
emptied = refl

sample_normalized :
    normalize_lines ("--- a/f.go" ∷ "+++ b/f.go" ∷ "@@ -9 +9 @@ f" ∷ sample_body)
    ≡ some ("--- a/f.go" ∷ "+++ b/f.go" ∷ "@@ -9,3 +9,3 @@ f" ∷ sample_result)
unfolding normalize_lines normalize_from append_non_hunk put_hunk normalize_hunk hunk_of
    hunk_header_trail index_marker new_header parse_starts fields split_word read_starts field_start
    cut_at str_to_pos_int keep_hunk_lines keep_from first_prefix blank_context_run
    is_hunk_body_prefix count_hunk_lines collect_hunk_body ends_body
sample_normalized = refl
