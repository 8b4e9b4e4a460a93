-- ===== src/Float64.antt =====
-- Go's float64, as the policy uses it: a type and its operations are a parameter of the model,
-- with the renderings that `fmt.Sprintf` makes of a number (`%.2f`, `%+.2f`) and of a text (`%q`).
-- No law of the arithmetic is assumed here; a theorem that needs one names it.
pub mod Fixed
use gotorque.Prelude.{ℕ, String, Bool, not, ◌&&◌}

pub record Float64 (F : Type 0) : Type 0 where
  -- `a < b`, false when one is not a number
  pub lt : F → F → Bool
  -- `a <= b`, false when one is not a number
  pub le : F → F → Bool
  -- `a == b`, false when one is not a number
  pub eq : F → F → Bool
  pub sub : F → F → F
  pub mul : F → F → F
  pub div : F → F → F
  pub neg : F → F
  -- a constant of the source that is a whole number
  pub whole : ℕ → F
  -- `math.NaN()`, `math.IsNaN` and `math.IsInf(_, 0)`
  pub nan : F
  pub is_nan : F → Bool
  pub is_inf : F → Bool
  -- `%.2f`, `%+.2f`
  pub fixed : F → String
  pub signed : F → String
  -- `%q` of a text
  pub quote : String → String

module _ {F : Type 0} ⦃fl : Float64 F⦄ where
  -- policy.go: `finite`
  unfoldable pub finite : F → Bool
  finite value = not (fl.is_nan value) && not (fl.is_inf value)

  -- policy.go: `finitePositive`
  unfoldable pub finite_positive : F → Bool
  finite_positive value = fl.lt (fl.whole 0) value && finite value
