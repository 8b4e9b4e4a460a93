-- ===== src/Campaign/Quiet.antt =====
-- internal/campaign/loadavg.go: the wait for a quiet machine. What the machine answers is a parameter:
-- the loads of each round, and whether the sleep of each round ends without an error.
use gotorque.Prelude.{
  ℕ, suc, zero, ◌+◌, Bool, true, false, not, ◌||◌, Option, none, some, List, [], ◌∷◌, if◌then◌else◌,
  leb,
}
use gotorque.Float64.{Float64}

-- `quietWaiter`, with durations in nanoseconds. `sample` and `sleep` take the round.
pub record QuietWaiter (F : Type 0) : Type 0 where
  pub sample : ℕ → List F
  pub cpus : ℕ
  pub limit : ℕ
  pub poll : ℕ
  pub sleep : ℕ → Bool

module _ {F : Type 0} ⦃fl : Float64 F⦄ where
  -- `contendedLoadFraction`
  abbrev pub contended_load_fraction : F
  contended_load_fraction = fl.div (fl.whole 7) (fl.whole 10)

  -- The loop of `contended`.
  abbrev pub over_load : F → List F → Bool
  over_load limit [] = false
  over_load limit (l ∷ ls) = fl.lt limit l || over_load limit ls

  -- `contended`
  unfoldable pub contended : List F → ℕ → Bool
  contended loads cpus = over_load (fl.mul contended_load_fraction (fl.whole cpus)) loads

  -- The loop of `wait`. Fuel is the model's own, and `none` is a loop that ran out of it.
  unfoldable pub wait_from : ℕ → QuietWaiter F → ℕ → ℕ → Option (ℕ × Bool)
  wait_from zero w round waited = none
  wait_from (suc fuel) w round waited =
      let later = wait_from fuel w (suc round) (waited + w.poll) in
      if not (contended (w.sample round) w.cpus)
      then some (waited, false)
      else if leb w.limit waited || not (w.sleep round)
      then some (waited, true)
      else later

  -- `wait`
  unfoldable pub wait : ℕ → QuietWaiter F → Option (ℕ × Bool)
  wait fuel w = wait_from fuel w 0 0

-- `defaultQuietWaiter`: `quietWaitLimit` and `quietPoll`.
abbrev pub quiet_wait_limit : ℕ
quiet_wait_limit = 180000000000

abbrev pub quiet_poll : ℕ
quiet_poll = 10000000000
