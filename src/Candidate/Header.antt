-- ===== src/Candidate/Header.antt =====
-- internal/candidate/normalize.go: the header of a normalized hunk, and the start lines that are read from
-- the header it had.
pub mod Words
pub mod RoundTrip
use Prim.Native.Char.{Char, code}
use Prim.Native.String.{◌++◌ as text_append}
use gotorque.Prelude.{
  ℕ, ◌+◌, ◌-◌, ◌*◌, ◌%◌, String, Bool, true, false, not, ◌&&◌, ◌||◌, Option, none, some, List, [],
  ◌∷◌, if◌then◌else◌, str_eq, ltb, ◌==◌, cut_at, fields, decimal, pos,
}

-- `strToPosInt`, wrapped around as a 64-bit integer; `none` is its -1.
unfoldable pub str_to_pos_int : String → ℕ → Option ℕ
str_to_pos_int String.[] n = some n
str_to_pos_int (String.◌∷◌ c s) n =
    let rest = str_to_pos_int s ((n * 10 + (code c - b'0')) % 18446744073709551616) in
    if ltb (code c) b'0' || ltb b'9' (code c) then none else rest

-- `strToPosInt(s) > 0`: the top half of the 64-bit numbers is negative.
abbrev pub is_positive : Option ℕ → Bool
is_positive none = false
is_positive (some n) = ltb 0 n && ltb n 9223372036854775808

-- A field without its sign, up to a comma.
abbrev pub up_to_comma : String → Option (String × String) → String
up_to_comma s none = s
up_to_comma s (some (before, after)) = before

-- A start that is plausible.
abbrev pub plausible : Bool → String → Option (Bool × String)
plausible is_old s =
    if str_eq s "" || not (is_positive (str_to_pos_int s 0)) then none else some (is_old, s)

-- One round of `parseStarts`: the side of a field, and its start.
unfoldable pub field_start : String → Option (Bool × String)
field_start String.[] = none
field_start (String.◌∷◌ c s) =
    let start = up_to_comma s (cut_at b',' s) in
    if code c == b'-'
    then plausible true start
    else if code c == b'+'
    then plausible false start
    else none

abbrev pub put_start : Option (Bool × String) → String × String → String × String
put_start none starts = starts
put_start (some (true, s)) (old, new) = (s, new)
put_start (some (false, s)) (old, new) = (old, s)

-- The loop of `parseStarts` over the fields.
unfoldable pub read_starts : List String → String × String → String × String
read_starts [] starts = starts
read_starts (f ∷ fs) starts = read_starts fs (put_start (field_start f) starts)

-- `parseStarts`
unfoldable pub parse_starts : String → String × String
parse_starts header = read_starts (fields header) ("1", "1")

-- The header that `normalizeHunk` writes.
unfoldable pub new_header : String → ℕ → String → ℕ → String → String
new_header old_start old_count new_start new_count trail = text_append "@@ -" (
    text_append old_start (
      text_append "," (
        text_append (decimal old_count) (
          text_append " +" (
            text_append new_start
              (text_append "," (text_append (decimal new_count) (text_append " @@" trail))))))))
