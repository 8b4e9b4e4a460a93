-- ===== src/Prelude/Integers.antt =====
-- Go's signed integers, and how `fmt` prints them with `%d`.
use Prim.Native.Nat.{ℕ, suc, zero, ◌/◌, ◌%◌}
use Prim.Native.String.{String, ◌++◌}
use mathlib.Core.Bool.{Bool, true, false, ◌||◌}
use mathlib.Core.List.{List, [], ◌∷◌}
use gotorque.Prelude.Tests.{◌==◌}

-- Integers over the native numbers: `pos n` is n and `negsuc n` is - (n + 1).
pub data ℤ : Type 0 where
  pos negsuc : ℕ → ℤ

-- `n < 0`, `n == 0` and `n < 1`
abbrev pub is_negative : ℤ → Bool
is_negative (pos n) = false
is_negative (negsuc n) = true

abbrev pub is_zero : ℤ → Bool
is_zero (pos n) = n == 0
is_zero (negsuc n) = false

abbrev pub below_one : ℤ → Bool
below_one n = is_negative n || is_zero n

-- `a == b`
abbrev pub int_eq : ℤ → ℤ → Bool
int_eq (pos a) (pos b) = a == b
int_eq (negsuc a) (negsuc b) = a == b
int_eq _ _ = false

abbrev pub pick_text : List String → ℕ → String
pick_text [] n = ""
pick_text (d ∷ ds) zero = d
pick_text (d ∷ ds) (suc n) = pick_text ds n

-- One decimal digit.
abbrev pub digit : ℕ → String
digit n = pick_text ("0" ∷ "1" ∷ "2" ∷ "3" ∷ "4" ∷ "5" ∷ "6" ∷ "7" ∷ "8" ∷ "9" ∷ []) n

-- The digits of a number before a text; a number has fewer digits than the fuel `decimal` gives.
abbrev pub decimal_from : ℕ → ℕ → String → String
decimal_from zero n out = out
decimal_from (suc k) n out =
    let longer = digit (n % 10) ++ out in
    elim (n / 10 == 0) [ true ↦ longer | false ↦ decimal_from k (n / 10) longer ]

abbrev pub decimal : ℕ → String
decimal n = decimal_from (suc n) n ""

abbrev pub int_text : ℤ → String
int_text (pos n) = decimal n
int_text (negsuc n) = "-" ++ decimal (suc n)
