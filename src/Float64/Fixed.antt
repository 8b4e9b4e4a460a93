-- ===== src/Float64/Fixed.antt =====
-- Numbers of four decimal places with a value that is not a number: an instance of the parameter
-- on which the definitions run. It is no model of IEEE rounding.
use Prim.Native.String.{◌++◌}
use gotorque.Prelude.{
  ℕ, suc, zero, ◌+◌, ◌-◌, ◌*◌, ◌/◌, Bool, true, false, leb, ltb, ◌==◌, if◌then◌else◌, arith, ◌≡◌,
}
use gotorque.Float64.{Float64}

-- `up n` is n / 10000, and `down n` is -(n + 1) / 10000.
pub data Num : Type 0 where
  not_a_number : Num
  up down : ℕ → Num

-- a - b, for the magnitudes in ten-thousandths
abbrev difference : ℕ → ℕ → Num
difference a b = if leb b a then up (a - b) else down (b - a - 1)

abbrev minus : Num → Num
minus not_a_number = not_a_number
minus (up zero) = up zero
minus (up (suc n)) = down n
minus (down n) = up (suc n)

abbrev subtract : Num → Num → Num
subtract (up a) (up b) = difference a b
subtract (up a) (down b) = up (a + suc b)
subtract (down a) (up b) = down (a + b)
subtract (down a) (down b) = difference b a
subtract _ _ = not_a_number

-- an operation on the magnitudes, with the sign of a product
abbrev by_magnitude : (ℕ → ℕ → ℕ) → Num → Num → Num
by_magnitude f (up a) (up b) = up (f a b)
by_magnitude f (up a) (down b) = minus (up (f a (suc b)))
by_magnitude f (down a) (up b) = minus (up (f (suc a) b))
by_magnitude f (down a) (down b) = up (f (suc a) (suc b))
by_magnitude f _ _ = not_a_number

abbrev less : Num → Num → Bool
less (up a) (up b) = ltb a b
less (down a) (down b) = ltb b a
less (down a) (up b) = true
less _ _ = false

abbrev at_most : Num → Num → Bool
at_most (up a) (up b) = leb a b
at_most (down a) (down b) = leb b a
at_most (down a) (up b) = true
at_most _ _ = false

abbrev same : Num → Num → Bool
same (up a) (up b) = a == b
same (down a) (down b) = a == b
same _ _ = false

abbrev unusable : Num → Bool
unusable not_a_number = true
unusable _ = false

abbrev pub whole_num : ℕ → Num
whole_num n = up (n * 10000)

instance abbrev pub fixed_float : Float64 Num
fixed_float = record {
  lt = less;
  le = at_most;
  eq = same;
  sub = subtract;
  mul = by_magnitude (λ a b. a * b / 10000);
  div = by_magnitude (λ a b. a * 10000 / b);
  neg = minus;
  whole = whole_num;
  nan = not_a_number;
  is_nan = unusable;
  is_inf = λ _. false;
  fixed = λ _. "x";
  signed = λ _. "+x";
  quote = λ s. "'" ++ s ++ "'";
}

-- What is at most another number is not above it.
pub not-lt_of_le : (a b : Num) → fixed_float.le a b ≡ true → fixed_float.lt b a ≡ false
not-lt_of_le (up a) (up b) h = ground arith
not-lt_of_le (up a) (down b) h = cc
not-lt_of_le (up a) not_a_number h = cc
not-lt_of_le (down a) (up b) h = ground arith
not-lt_of_le (down a) (down b) h = ground arith
not-lt_of_le (down a) not_a_number h = cc
not-lt_of_le not_a_number b h = ground arith
