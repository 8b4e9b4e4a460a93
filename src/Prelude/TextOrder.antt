-- ===== src/Prelude/TextOrder.antt =====
-- The bytewise order of texts is asymmetric, and the emptiness of a joined text.
use Prim.Native.Nat.{ℕ, Ordering, compare as compare_nat}
use Prim.Native.Char.{code}
use Prim.Native.String.compare
use Prim.Native.String.{String, [], ◌∷◌, ◌++◌, compare, then}
use mathlib.Core.Path.{◌≡◌, refl, sym, ◌∙◌, ap}
use mathlib.Core.Bool.{◌||◌, true, false, false≢true}
use mathlib.Core.Logic.{inl, inr}
use text.Mathlib.TextEquality.{eq_iff}
use text.Mathlib.TextLemmas.{append-eq-nil_iff}
use gotorque.Prelude.Tests.{Bool-cases}
use native.Mathlib.Omega.{arith}
use text.Mathlib.Text.{is_lt, is_eq}
use gotorque.Prelude.Texts.{str_lt, str_eq}

abbrev flip : Ordering → Ordering
flip Ordering.lt = Ordering.gt
flip Ordering.eq = Ordering.eq
flip Ordering.gt = Ordering.lt

flip-then : (o p : Ordering) → flip (then o p) ≡ then (flip o) (flip p)
flip-then Ordering.lt p = refl
flip-then Ordering.eq p = refl
flip-then Ordering.gt p = refl

compare_nat-flip : (a b : ℕ) → compare_nat b a ≡ flip (compare_nat a b)
compare_nat-flip a b = ground arith

compare-flip : (s t : String) → compare t s ≡ flip (compare s t)
compare-flip [] [] = refl
compare-flip [] (d ∷ t) = compare.cons-nil d t ∙ ap flip (sym (compare.nil-cons d t))
compare-flip (c ∷ s) [] = compare.nil-cons c s ∙ ap flip (sym (compare.cons-nil c s))
compare-flip (c ∷ s) (d ∷ t) =
    rw (compare.cons-cons d c t s, compare.cons-cons c d s t)
      (rw
        (
          flip-then (compare_nat (code c) (code d)) (compare s t),
          compare_nat-flip (code c) (code d),
        )
        (ap (then (flip (compare_nat (code c) (code d)))) (compare-flip s t)))

is_lt-flip : (o : Ordering) → is_lt o ≡ true → is_lt (flip o) ≡ false
is_lt-flip Ordering.lt h = refl
is_lt-flip Ordering.eq h = refl
is_lt-flip Ordering.gt h = cc

pub str_lt_asymm : (s t : String) → str_lt s t ≡ true → str_lt t s ≡ false
str_lt_asymm s t h = rw (compare-flip s t) (is_lt-flip (compare s t) h)

order-total : (o : Ordering) → (is_lt o || is_eq o || is_lt (flip o)) ≡ true
order-total Ordering.lt = refl
order-total Ordering.eq = refl
order-total Ordering.gt = refl

-- Of two texts one comes first, or they are the same.
pub str_lt_total : (s t : String) → (str_lt s t || str_eq s t || str_lt t s) ≡ true
str_lt_total s t = rw (compare-flip s t) (order-total (compare s t))

-- A text with a part that is not empty is not empty.
pub str_eq-append_nil : (s t : String) → str_eq s "" ≡ false → str_eq (s ++ t) "" ≡ false
str_eq-append_nil s t h = elim (Bool-cases (str_eq (s ++ t) "")) [
  | inl e ↦
      let both = (append-eq-nil_iff {p = s} {q = t}).0 ((eq_iff (s ++ t) "").0 e) in
      absurd (false≢true (sym h ∙ (eq_iff s "").1 both.0))
  | inr e ↦ e
]
