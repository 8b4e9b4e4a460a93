-- ===== src/Candidate/Normalize.antt =====
-- internal/candidate/normalize.go: a normalized hunk, and the loop over the lines of a diff.
pub mod Trail
pub mod Rules
pub mod Sections
use Prim.Native.Char.{code}
use Prim.Native.String.{◌++◌ as text_append}
use text.Mathlib.Text.{starts_with}
use gotorque.Prelude.{
  ◌||◌, str_eq, ℕ, suc, zero, ◌+◌, String, Bool, true, false, not, ◌&&◌, Option, none, some, List,
  [], ◌∷◌, ◌++◌, if◌then◌else◌, ◌==◌, length, ◌>>=◌,
}
use gotorque.Candidate.Hunks.{keep_hunk_lines, count_hunk_lines, collect_hunk_body}
use gotorque.Candidate.Header.{parse_starts, new_header}

-- `strings.Index(text, "@@")`; -1 is `none`. Indices count characters where Go counts bytes.
unfoldable pub index_marker : String → Option ℕ
index_marker String.[] = none
index_marker (String.◌∷◌ c String.[]) = none
index_marker (String.◌∷◌ c (String.◌∷◌ d s)) =
    let later = index_marker (String.◌∷◌ d s) in
    if code c == b'@' && code d == b'@'
    then some 0
    else elim later [ none ↦ none | some i ↦ some (suc i) ]

abbrev pub behind_three : String → String
behind_three (String.◌∷◌ _ (String.◌∷◌ _ (String.◌∷◌ _ s))) = s
behind_three s = s

-- `strings.TrimPrefix(header, "@@ ")`
abbrev pub trim_header : String → String
trim_header header = if starts_with header "@@ " then behind_three header else header

-- `text[n:]`; `none` is the panic of a bound past the end.
abbrev pub text_from : ℕ → String → Option String
text_from zero s = some s
text_from (suc n) String.[] = none
text_from (suc n) (String.◌∷◌ c s) = text_from n s

-- `hunkHeaderTrail`
unfoldable pub hunk_header_trail : String → Option String
hunk_header_trail header = elim (index_marker (trim_header header)) [
  | none ↦ some ""
  | some idx ↦ text_from (3 + idx + 2) header
]

-- `normalizeHunk` once the lines are kept and counted; a dropped hunk is `some none`.
unfoldable pub hunk_of : String → List String → ℕ × ℕ → Option (Option (List String))
hunk_of header kept (old_count, new_count) =
    let (old_start, new_start) = parse_starts header in
    if old_count == 0 && new_count == 0
    then some none
    else (hunk_header_trail header >>= λ trail.
        some (some (new_header old_start old_count new_start new_count trail ∷ kept)))

-- `normalizeHunk`; the outer `none` is the panic of an index out of range.
unfoldable pub normalize_hunk : String → List String → Option (Option (List String))
normalize_hunk header body =
    keep_hunk_lines body >>= λ kept. count_hunk_lines kept >>= λ counts. hunk_of header kept counts

-- The lines that are out, and where the headers of the section are in them; -1 is `none`.
pub record Section : Type 0 where
  pub out : List String
  pub headers : Option ℕ

-- `out[:i]`; `none` is a bound past the end.
abbrev pub cut_to : ℕ → List String → Option (List String)
cut_to zero ls = some []
cut_to (suc n) [] = none
cut_to (suc n) (l ∷ ls) = cut_to n ls >>= λ kept. some (l ∷ kept)

-- `applyNormalizedHunk` for a hunk that was normalized.
unfoldable pub put_hunk : Section → Option (List String) → Option Section
put_hunk s (some norm) = some record { out = s.out ++ norm; headers = none }
put_hunk s none = elim s.headers [
  | none ↦ some s
  | some i ↦ (cut_to i s.out >>= λ out. some record { out = out; headers = none })
]

-- `appendNonHunk`: the section, and the lines that are left.
unfoldable pub append_non_hunk : Section → String → List String → Section × List String
append_non_hunk s line [] =
    if starts_with line "```" then (s, []) else (record s { out = s.out ++ line ∷ [] }, [])
append_non_hunk s line (next ∷ rest) =
    if starts_with line "```"
    then (s, next ∷ rest)
    else if starts_with line "--- " && starts_with next "+++ "
    then (record { out = s.out ++ line ∷ next ∷ []; headers = some (length s.out) }, rest)
    else (record s { out = s.out ++ line ∷ [] }, next ∷ rest)

-- The loop of `NormalizeUnifiedDiff`. Fuel is the model's own; `none` is a loop that ran out of it, or a
-- panic.
unfoldable pub normalize_from : ℕ → List String → Section → Option (List String)
normalize_from zero lines s = none
normalize_from (suc fuel) [] s = some s.out
normalize_from (suc fuel) (line ∷ rest) s =
    let (appended, left) = append_non_hunk s line rest in
    let (body, next) = collect_hunk_body rest in
    let plain = normalize_from fuel left appended in
    let hunk = normalize_hunk line body >>= λ norm.
    put_hunk s norm >>= λ put. normalize_from fuel next put in
    if not (starts_with line "@@ ") then plain else hunk

-- The lines that `NormalizeUnifiedDiff` joins, of the lines of a patch.
unfoldable pub normalize_lines : List String → Option (List String)
normalize_lines lines =
    normalize_from (suc (length lines)) lines record { out = []; headers = none }

-- `strings.Contains(patch, "@@")`
unfoldable pub has_marker : String → Bool
has_marker String.[] = false
has_marker (String.◌∷◌ c s) = let later = has_marker s in starts_with (String.◌∷◌ c s) "@@" || later

-- `strings.Split(text, "\n")`: the first line, and the lines after it.
unfoldable pub split_lines : String → String × List String
split_lines String.[] = ("", [])
split_lines (String.◌∷◌ c s) =
    let (line, lines) = split_lines s in
    if code c == b'\n' then ("", line ∷ lines) else (String.◌∷◌ c line, lines)

-- `strings.TrimSuffix(patch, "\n")`
unfoldable pub trim_newline : String → String
trim_newline String.[] = ""
trim_newline (String.◌∷◌ c String.[]) = if code c == b'\n' then "" else String.◌∷◌ c ""
trim_newline (String.◌∷◌ c (String.◌∷◌ d s)) = String.◌∷◌ c (trim_newline (String.◌∷◌ d s))

-- `strings.Join(out, "\n") + "\n"`: with a newline behind each line, where there is one.
unfoldable pub join_lines : List String → String
join_lines [] = "\n"
join_lines (l ∷ []) = text_append l "\n"
join_lines (l ∷ m ∷ ls) = text_append l (text_append "\n" (join_lines (m ∷ ls)))

-- `NormalizeUnifiedDiff`
unfoldable pub normalize_unified_diff : String → Option (String × Bool)
normalize_unified_diff patch =
    if not (has_marker patch)
    then some (patch, false)
    else let (line, lines) = split_lines (trim_newline patch) in
      normalize_lines (line ∷ lines) >>= λ out.
      let result = join_lines out in some (result, not (str_eq result patch))
