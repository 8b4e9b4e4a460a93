-- ===== src/Candidate/Header/RoundTrip.antt =====
-- internal/candidate/normalize.go: the starts that a written header has are read back from it.
use Prim.Native.String.{◌++◌ as text_append}
use Prim.Native.String.append
use mathlib.Core.Path.{subst}
use gotorque.Prelude.{
  ℕ, String, Bool, true, false, not, Option, none, some, List, [], ◌∷◌, str_eq, split_word, fields,
  keep, keep-cons, decimal, ◌≡◌, refl, ap, ◌∙◌, Bool-cases, inl, inr, eq_iff,
}
use gotorque.Candidate.Header.{
  str_to_pos_int, is_positive, plausible, field_start, put_start, read_starts, parse_starts,
  new_header,
}
use gotorque.Candidate.Header.Words.{
  split_word-append, cut_at-comma, positive-digits, decimal-NoSpace,
}

-- A start that is plausible: a number that is positive.
abbrev pub IsStart : String → Type 0
IsStart s = is_positive (str_to_pos_int s 0) ≡ true

-- A side of a header, without its sign, before a text.
abbrev side : String → ℕ → String → String
side start count rest = text_append start (text_append "," (text_append (decimal count) rest))

split_word-side :
    (start : String) (count : ℕ) (rest : String)
    → IsStart start
    → split_word (side start count rest)
      ≡ (side start count (split_word rest).0, (split_word rest).1)
split_word-side start count rest h =
    rw
      (
        split_word-append start (text_append "," (text_append (decimal count) rest))
            (positive-digits start 0 h).0,
        split_word-append "," (text_append (decimal count) rest) (refl, tt),
        split_word-append (decimal count) rest (decimal-NoSpace count),
      )
      refl

start-nonempty : (s : String) → IsStart s → str_eq s "" ≡ false
unfolding str_to_pos_int
start-nonempty s h = elim (Bool-cases (str_eq s "")) [
  | inl e ↦ let empty = subst IsStart ((eq_iff s "").0 e) h in cc
  | inr e ↦ e
]

plausible-start : (is_old : Bool) (s : String) → IsStart s → plausible is_old s ≡ some (is_old, s)
plausible-start is_old s h = rw (start-nonempty s h, h) refl

field_start-old :
    (start : String) (count : ℕ)
    → IsStart start
    → field_start (String.◌∷◌ "-" (side start count "")) ≡ some (true, start)
unfolding field_start
field_start-old start count h =
    rw (cut_at-comma start (text_append (decimal count) "") (positive-digits start 0 h).1)
      (plausible-start true start h)

field_start-new :
    (start : String) (count : ℕ)
    → IsStart start
    → field_start (String.◌∷◌ "+" (side start count "")) ≡ some (false, start)
unfolding field_start
field_start-new start count h =
    rw (cut_at-comma start (text_append (decimal count) "") (positive-digits start 0 h).1)
      (plausible-start false start h)

field_start-at : (s : String) → field_start (String.◌∷◌ "@" s) ≡ none
unfolding field_start
field_start-at s = refl

-- Empty fields say nothing, so that it does not matter that they are left out.
read_starts-keep :
    (fs : List String) (starts : String × String)
    → read_starts (keep (λ w. not (str_eq w "")) fs) starts ≡ read_starts fs starts
unfolding read_starts field_start
read_starts-keep [] starts = refl
read_starts-keep (f ∷ fs) starts = elim (Bool-cases (str_eq f "")) [
  | inl e ↦
      rw (keep-cons (λ w. not (str_eq w "")) f fs, e, (eq_iff f "").0 e)
        (read_starts-keep fs starts)
  | inr e ↦
      rw (keep-cons (λ w. not (str_eq w "")) f fs, e)
        (read_starts-keep fs (put_start (field_start f) starts))
]

split_word-open :
    (s : String)
    → split_word (text_append "@@ -" s) ≡ ("@@", String.◌∷◌ "-" (split_word s).0 ∷ (split_word s).1)
unfolding split_word
split_word-open s =
    rw
      (
        append.cons "@" "@ -" s,
        append.cons "@" " -" s,
        append.cons " " "-" s,
        append.cons "-" "" s,
        append.nil s,
      )
      refl

split_word-plus :
    (s : String)
    → split_word (text_append " +" s) ≡ ("", String.◌∷◌ "+" (split_word s).0 ∷ (split_word s).1)
unfolding split_word
split_word-plus s = rw (append.cons " " "+" s, append.cons "+" "" s, append.nil s) refl

split_word-close :
    (s : String)
    → split_word (text_append " @@" s)
      ≡ ("", String.◌∷◌ "@" (String.◌∷◌ "@" (split_word s).0) ∷ (split_word s).1)
unfolding split_word
split_word-close s =
    rw (append.cons " " "@@" s, append.cons "@" "@" s, append.cons "@" "" s, append.nil s) refl

-- The words of a header that is written.
header-words :
    (old : String) (a : ℕ) (new : String) (b : ℕ) (trail : String)
    → IsStart old
    → IsStart new
    → split_word (new_header old a new b trail) ≡ (
      "@@",
      String.◌∷◌ "-" (side old a "")
          ∷ String.◌∷◌ "+" (side new b "")
          ∷ String.◌∷◌ "@" (String.◌∷◌ "@" (split_word trail).0)
          ∷ (split_word trail).1,
    )
unfolding new_header
header-words old a new b trail h k =
    let close = text_append " @@" trail in
    let plus = text_append " +" (side new b close) in
    rw
      (
        split_word-open (side old a plus),
        split_word-side old a plus h,
        split_word-plus (side new b close),
        split_word-side new b close k,
        split_word-close trail,
      )
      refl

read_one :
    (f : String) (fs : List String) (starts : String × String) (o : Option (Bool × String))
    → field_start f ≡ o
    → read_starts (f ∷ fs) starts ≡ read_starts fs (put_start o starts)
unfolding read_starts
read_one f fs starts o e = ap (λ x. read_starts fs (put_start x starts)) e

words-read :
    (old : String) (a : ℕ) (new : String) (b : ℕ) (trail : String)
    → IsStart old
    → IsStart new
    → read_starts
        ("@@"
          ∷ String.◌∷◌ "-" (side old a "")
          ∷ String.◌∷◌ "+" (side new b "")
          ∷ String.◌∷◌ "@" (String.◌∷◌ "@" (split_word trail).0)
          ∷ (split_word trail).1)
        ("1", "1")
      ≡ read_starts (split_word trail).1 (old, new)
unfolding read_starts
words-read old a new b trail h k =
    let minus = String.◌∷◌ "-" (side old a "") in
    let plus = String.◌∷◌ "+" (side new b "") in
    let close = String.◌∷◌ "@" (String.◌∷◌ "@" (split_word trail).0) in
    let words = (split_word trail).1 in
    read_one "@@" (minus ∷ plus ∷ close ∷ words) ("1", "1") none (field_start-at "@")
    ∙ read_one minus (plus ∷ close ∷ words) ("1", "1") (some (true, old)) (field_start-old old a h)
    ∙ read_one plus (close ∷ words) (old, "1") (some (false, new)) (field_start-new new b k)
    ∙ read_one close words (old, new) none (field_start-at (String.◌∷◌ "@" (split_word trail).0))

-- Where the starts are positive numbers, reading the header that is written gives them back, whatever the
-- counts are; but a word of the trail behind its first that is a signed positive number takes the place of
-- the start of its side.
pub parse_starts-new_header :
    (old : String) (a : ℕ) (new : String) (b : ℕ) (trail : String)
    → IsStart old
    → IsStart new
    → parse_starts (new_header old a new b trail) ≡ read_starts (split_word trail).1 (old, new)
unfolding parse_starts fields read_starts
parse_starts-new_header old a new b trail h k =
    let header = split_word (new_header old a new b trail) in
    read_starts-keep (header.0 ∷ header.1) ("1", "1")
    ∙ rw (header-words old a new b trail h k) (words-read old a new b trail h k)
