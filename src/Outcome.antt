-- ===== src/Outcome.antt =====
-- What a Go function returns with an error, and runs of loops that stand on fuel in the model.
use gotorque.Prelude.{◌≡◌, refl, String, Bool, true, false, Option, none, some}

-- A result, or an error with its text.
pub data Outcome {ℓ} (A : Type ℓ) : Type ℓ where
  ok : A → Outcome A
  err : String → Outcome A

infixl 5 ◌>>=◌
abbrev pub ◌>>=◌ {ℓ κ} : {A : Type ℓ} {B : Type κ} → Outcome A → (A → Outcome B) → Outcome B
ok a >>= f = f a
err e >>= f = err e

-- A run of loops over nodes. Fuel is the model's own, and `none` is a loop that ran out of it.
abbrev pub Run : Type 0 → Type 0
Run A = Option (Outcome A)

-- What comes after a run that ended without an error.
abbrev pub follow : {A B : Type 0} → Run A → (A → Run B) → Run B
follow none f = none
follow (some (ok a)) f = f a
follow (some (err e)) f = some (err e)

-- What an outcome, or a run, ends with, if it ends without an error.
abbrev pub Yields : {A : Type 0} → (A → Type 0) → Outcome A → Type 0
Yields P (ok a) = P a
Yields P (err e) = Unit

abbrev pub Ensures : {A : Type 0} → (A → Type 0) → Run A → Type 0
Ensures P none = Unit
Ensures P (some r) = Yields P r

module _ {A B : Type 0} (P : A → Type 0) (Q : B → Type 0) where
  pub Yields-bind :
      (m : Outcome A) (f : A → Outcome B)
      → Yields P m
      → ((a : A) → P a → Yields Q (f a))
      → Yields Q (m >>= f)
  Yields-bind (ok a) f h k = k a h
  Yields-bind (err e) f h k = tt

  pub Ensures-follow :
      (m : Run A) (f : A → Run B)
      → Ensures P m
      → ((a : A) → P a → Ensures Q (f a))
      → Ensures Q (follow m f)
  Ensures-follow none f h k = tt
  Ensures-follow (some (ok a)) f h k = k a h
  Ensures-follow (some (err e)) f h k = tt

pub Yields-any : {A : Type 0} (m : Outcome A) → Yields (λ _. Unit) m
Yields-any (ok a) = tt
Yields-any (err e) = tt

module _ {A : Type 0} {P Q : A → Type 0} (f : (a : A) → P a → Q a) where
  pub Yields-map : (m : Outcome A) → Yields P m → Yields Q m
  Yields-map (ok a) h = f a h
  Yields-map (err e) h = tt

  pub Ensures-map : (m : Run A) → Ensures P m → Ensures Q m
  Ensures-map none h = tt
  Ensures-map (some r) h = Yields-map r h

abbrev pub is_ok : {A : Type 0} → Outcome A → Bool
is_ok (ok a) = true
is_ok (err e) = false

-- A bind, where what comes after it may use what was bound.
pub Yields-bound :
    {A B : Type 0} (Q : B → Type 0) (m : Outcome A) (f : A → Outcome B)
    → ((a : A) → m ≡ ok a → Yields Q (f a))
    → Yields Q (m >>= f)
Yields-bound Q (ok a) f k = k a refl
Yields-bound Q (err e) f k = tt
