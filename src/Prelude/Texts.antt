-- ===== src/Prelude/Texts.antt =====
-- Texts: their equality and their bytewise order, and `strings.TrimSpace`.
use Prim.Native.Nat.{ℕ}
use Prim.Native.Char.{Char, code}
use Prim.Native.String.{String, compare}
use mathlib.Core.Bool.{Bool, ◌||◌, ◌&&◌}
use mathlib.Core.Option.{Option, none, some}
use mathlib.Core.Bool.{not}
use mathlib.Core.List.{List, [], ◌∷◌}
use gotorque.Prelude.Lists.{keep}
use gotorque.Prelude.Tests.{leb, ◌==◌, if◌then◌else◌}
use text.Mathlib.Text.{◌==◌ as text_eq, is_lt}

-- `s == t` and `s < t` on Go strings
abbrev pub str_eq : String → String → Bool
str_eq s t = text_eq s t

abbrev pub str_lt : String → String → Bool
str_lt s t = is_lt (compare s t)

-- `unicode.IsSpace`
abbrev pub is_space : ℕ → Bool
is_space c =
    (leb 9 c && leb c 13)
    || c == 32
    || c == 0x85
    || c == 0xa0
    || c == 0x1680
    || (leb 0x2000 c && leb c 0x200a)
    || c == 0x2028
    || c == 0x2029
    || c == 0x202f
    || c == 0x205f
    || c == 0x3000

trim_left : String → String
trim_left String.[] = String.[]
trim_left (String.◌∷◌ c s) =
    let rest = trim_left s in if is_space (code c) then rest else String.◌∷◌ c s

-- A character before a text whose end is trimmed: white space stays only before what is kept.
put_back : Char → String → String
put_back c String.[] = if is_space (code c) then String.[] else String.◌∷◌ c String.[]
put_back c (String.◌∷◌ d t) = String.◌∷◌ c (String.◌∷◌ d t)

trim_right : String → String
trim_right String.[] = String.[]
trim_right (String.◌∷◌ c s) = put_back c (trim_right s)

-- `strings.TrimSpace`
unfoldable pub trim_space : String → String
unfolding trim_left trim_right put_back
trim_space s = trim_right (trim_left s)

-- `strings.Cut` at a byte; also what comes before and after the place that `strings.Index` finds.
unfoldable pub cut_at : ℕ → String → Option (String × String)
cut_at b String.[] = none
cut_at b (String.◌∷◌ c s) =
    let rest = cut_at b s in
    if code c == b
    then some ("", s)
    else elim rest [ none ↦ none | some (before, after) ↦ some (String.◌∷◌ c before, after) ]

-- The word that a text starts with, and the words after it: words are split at each white space.
unfoldable pub split_word : String → String × List String
split_word String.[] = ("", [])
split_word (String.◌∷◌ c s) =
    let (word, words) = split_word s in
    if is_space (code c) then ("", word ∷ words) else (String.◌∷◌ c word, words)

-- `strings.Fields`
unfoldable pub fields : String → List String
fields s = let (word, words) = split_word s in keep (λ w. not (str_eq w "")) (word ∷ words)
