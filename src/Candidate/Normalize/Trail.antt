-- ===== src/Candidate/Normalize/Trail.antt =====
-- internal/candidate/normalize.go: the bounds of the text behind the second `@@` of a header.
use Prim.Native.Char.{Char, code}
use Prim.Native.String.append
use Prim.Native.String.{◌++◌ as text_append}
use text.Mathlib.Text.{starts_with}
use text.Mathlib.TextEquality.{starts_with_iff}
use mathlib.Core.Path.{subst}
use gotorque.Prelude.{
  ℕ, suc, ◌+◌, String, true, ◌&&◌, Option, none, some, ◌==◌, if◌then◌else◌, ◌≡◌, refl, sym, ap, ◌∙◌,
  arith, Bool-cases, inl, inr,
}
use gotorque.Candidate.Normalize.{index_marker, behind_three, text_from, hunk_header_trail}

-- What stands behind the first `@@` of a text.
abbrev pub after_marker : String → String
after_marker String.[] = ""
after_marker (String.◌∷◌ c String.[]) = ""
after_marker (String.◌∷◌ c (String.◌∷◌ d s)) =
    let later = after_marker (String.◌∷◌ d s) in
    if code c == b'@' && code d == b'@' then s else later

-- The text from two bytes behind the index, where there is one.
abbrev behind_index : Option ℕ → String → Option String
behind_index none s = some ""
behind_index (some i) s = text_from (suc (suc i)) s

abbrev one_more : Option ℕ → Option ℕ
one_more o = elim o [ none ↦ none | some i ↦ some (suc i) ]

behind_index-step :
    (o : Option ℕ) (c : Char) (s : String)
    → behind_index (one_more o) (String.◌∷◌ c s) ≡ behind_index o s
behind_index-step none c s = refl
behind_index-step (some i) c s = refl

behind_index-after_marker : (s : String) → behind_index (index_marker s) s ≡ some (after_marker s)
unfolding index_marker
behind_index-after_marker String.[] = refl
behind_index-after_marker (String.◌∷◌ c String.[]) = refl
behind_index-after_marker (String.◌∷◌ c (String.◌∷◌ d s)) =
    elim (Bool-cases (code c == b'@' && code d == b'@')) [
      | inl e ↦ rw e refl
      | inr e ↦ rw e (
          behind_index-step (index_marker (String.◌∷◌ d s)) c (String.◌∷◌ d s)
          ∙ behind_index-after_marker (String.◌∷◌ d s))
    ]

header_text :
    (s : String) → text_append "@@ " s ≡ String.◌∷◌ "@" (String.◌∷◌ "@" (String.◌∷◌ " " s))
header_text s =
    rw (append.cons "@" "@ " s, append.cons "@" " " s, append.cons " " "" s, append.nil s) refl

-- The bounds of `hunkHeaderTrail`, for an index in the header without its beginning.
abbrev trail_at : Option ℕ → String → Option String
trail_at o header = elim o [ none ↦ some "" | some idx ↦ text_from (3 + idx + 2) header ]

five_more : (i : ℕ) → 3 + i + 2 ≡ suc (suc (suc (suc (suc i))))
five_more i = omega arith

trail_at-behind :
    (o : Option ℕ) (s : String)
    → trail_at o (String.◌∷◌ "@" (String.◌∷◌ "@" (String.◌∷◌ " " s))) ≡ behind_index o s
trail_at-behind none s = refl
trail_at-behind (some i) s = rw (five_more i) refl

trail-known :
    (s header : String)
    → header ≡ String.◌∷◌ "@" (String.◌∷◌ "@" (String.◌∷◌ " " s))
    → starts_with header "@@ " ≡ true
    → hunk_header_trail header ≡ some (after_marker s)
unfolding hunk_header_trail
trail-known s header e h =
    ap (λ b. trail_at (index_marker (if b then behind_three header else header)) header) h
    ∙ (subst (λ v. trail_at (index_marker (behind_three v)) v ≡ some (after_marker s)) (sym e)
        (trail_at-behind (index_marker s) s ∙ behind_index-after_marker s))

-- The text behind the header's second `@@` is there for every header that `NormalizeUnifiedDiff` takes.
pub hunk_header_trail-after_marker :
    (header : String)
    → starts_with header "@@ " ≡ true
    → hunk_header_trail header ≡ some (after_marker (behind_three header))
hunk_header_trail-after_marker header h =
    let (s, same) = (starts_with_iff header "@@ ").0 h in
    let text = sym same ∙ header_text s in
    trail-known s header text h ∙ ap (λ t. some (after_marker (behind_three t))) (sym text)
