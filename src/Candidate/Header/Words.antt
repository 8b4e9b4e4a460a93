-- ===== src/Candidate/Header/Words.antt =====
-- internal/candidate/normalize.go: the words of a header, and the digits in them.
use Prim.Native.Char.{code}
use Prim.Native.String.{◌++◌ as text_append}
use Prim.Native.String.append
use gotorque.Prelude.{
  ℕ, suc, zero, ◌+◌, ◌-◌, ◌*◌, ◌%◌, ◌/◌, String, Bool, true, false, ◌||◌, Option, none, some, List,
  [], ◌∷◌, if◌then◌else◌, ltb, ◌==◌, cut_at, split_word, is_space, decimal, decimal_from, pick_text,
  digit, All, ◌≡◌, refl, arith,
}
use gotorque.Candidate.Header.{str_to_pos_int, is_positive}

-- No character of a text is white space; none is a comma.
abbrev pub NoSpace : String → Type 0
NoSpace String.[] = Unit
NoSpace (String.◌∷◌ c s) = (is_space (code c) ≡ false) × NoSpace s

abbrev pub NoComma : String → Type 0
NoComma String.[] = Unit
NoComma (String.◌∷◌ c s) = (code c == b',' ≡ false) × NoComma s

NoSpace-append : (s t : String) → NoSpace s → NoSpace t → NoSpace (text_append s t)
NoSpace-append String.[] t _ k = rw (append.nil t) k
NoSpace-append (String.◌∷◌ c s) t (p, h) k = rw (append.cons c s t) (p, NoSpace-append s t h k)

-- A word goes on up to the first white space.
pub split_word-append :
    (w s : String)
    → NoSpace w
    → split_word (text_append w s) ≡ (text_append w (split_word s).0, (split_word s).1)
unfolding split_word
split_word-append String.[] s h = rw (append.nil s, append.nil (split_word s).0) refl
split_word-append (String.◌∷◌ c w) s (p, h) =
    rw (append.cons c w s, append.cons c w (split_word s).0, p, split_word-append w s h) refl

pub cut_at-comma :
    (s t : String) → NoComma s → cut_at b',' (text_append s (text_append "," t)) ≡ some (s, t)
unfolding cut_at
cut_at-comma String.[] t h =
    rw (append.nil (text_append "," t), append.cons "," "" t, append.nil t) refl
cut_at-comma (String.◌∷◌ c s) t (p, h) =
    rw (append.cons c s (text_append "," t), p, cut_at-comma s t h) refl

digit-space : (c : ℕ) → (ltb c b'0' || ltb b'9' c) ≡ false → is_space c ≡ false
digit-space c h = ground (arith, h)

digit-comma : (c : ℕ) → (ltb c b'0' || ltb b'9' c) ≡ false → (c == b',') ≡ false
digit-comma c h = ground (arith, h)

positive_if :
    (b : Bool) (o : Option ℕ)
    → is_positive (if b then none else o) ≡ true
    → (b ≡ false) × (is_positive o ≡ true)
positive_if true o h = cc
positive_if false o h = (refl, h)

-- Whether the digits end here or go on.
more_digits :
    (last : Bool) (s t : String)
    → NoSpace s
    → NoSpace t
    → NoSpace (elim last [ true ↦ s | false ↦ t ])
more_digits true s t h k = h
more_digits false s t h k = k

pub positive-digits :
    (s : String) (n : ℕ) → is_positive (str_to_pos_int s n) ≡ true → NoSpace s × NoComma s
unfolding str_to_pos_int
positive-digits String.[] n h = (tt, tt)
positive-digits (String.◌∷◌ c s) n h =
    let (digit_c, rest) = positive_if (ltb (code c) b'0' || ltb b'9' (code c)) _ h in
    let (spaces, commas) =
      positive-digits s ((n * 10 + (code c - b'0')) % 18446744073709551616) rest in
    ((digit-space (code c) digit_c, spaces), (digit-comma (code c) digit_c, commas))

-- The digits that are printed have no white space.
pick_text-NoSpace : (ds : List String) (n : ℕ) → All NoSpace ds → NoSpace (pick_text ds n)
pick_text-NoSpace [] n h = tt
pick_text-NoSpace (d ∷ ds) zero (p, h) = p
pick_text-NoSpace (d ∷ ds) (suc n) (p, h) = pick_text-NoSpace ds n h

digit-NoSpace : (n : ℕ) → NoSpace (digit n)
digit-NoSpace n =
    pick_text-NoSpace ("0" ∷ "1" ∷ "2" ∷ "3" ∷ "4" ∷ "5" ∷ "6" ∷ "7" ∷ "8" ∷ "9" ∷ []) n (
      (refl, tt),
      (
        (refl, tt),
        (
          (refl, tt),
          (
            (refl, tt),
            ((refl, tt), ((refl, tt), ((refl, tt), ((refl, tt), ((refl, tt), ((refl, tt), tt)))))),
          ),
        ),
      ),
    )

decimal_from-NoSpace : (k n : ℕ) (out : String) → NoSpace out → NoSpace (decimal_from k n out)
decimal_from-NoSpace zero n out h = h
decimal_from-NoSpace (suc k) n out h =
    let longer = NoSpace-append (digit (n % 10)) out (digit-NoSpace (n % 10)) h in
    more_digits (n / 10 == 0) _ _ longer
      (decimal_from-NoSpace k (n / 10) (text_append (digit (n % 10)) out) longer)

pub decimal-NoSpace : (n : ℕ) → NoSpace (decimal n)
decimal-NoSpace n = decimal_from-NoSpace (suc n) n "" tt
