-- ===== src/Campaign/Laws/Quiet.antt =====
-- internal/campaign/loadavg.go: the wait ends, and what it waited for.
use gotorque.Prelude.{
  ◌⊎◌, ℕ, suc, zero, ◌+◌, ◌*◌, ◌/◌, ◌≤◌, ◌<◌, Bool, true, false, not, ◌||◌, ◌&&◌, some, leb, ◌≡◌,
  refl, arith, Bool-cases, inl, inr,
}
use native.Mathlib.Nat.{div-add-mod', mod-lt}
use gotorque.Float64.{Float64}
use gotorque.Campaign.Quiet.{QuietWaiter, contended, wait_from, wait}

module _ {F : Type 0} ⦃fl : Float64 F⦄ (w : QuietWaiter F) where
  -- Every round from one on, before another, was contended and its sleep ended without an error.
  abbrev pub BusyFor : ℕ → ℕ → Type 0
  BusyFor round zero = Unit
  BusyFor round (suc k) =
      (contended (w.sample round) w.cpus ≡ true) × (w.sleep round ≡ true) × BusyFor (suc round) k

  -- How a wait ended after a number of rounds of sleep.
  pub record EndsAt (round waited : ℕ) (result : ℕ × Bool) (k : ℕ) : Type 0 where
    pub busy : BusyFor round k
    pub waited_for : result.0 ≡ waited + k * w.poll
    pub final : ℕ
    pub final_at : final ≡ round + k
    pub last : contended (w.sample final) w.cpus ≡ result.1
    pub bounded : (k ≡ 0) ⊎ (result.0 < w.limit + w.poll)
    pub given_up : (result.1 && not (leb w.limit result.0) && w.sleep final) ≡ false

  -- The wait ends, with fuel, after some number of rounds of sleep.
  abbrev Finishes : ℕ → ℕ → ℕ → Type 0
  Finishes fuel round waited =
      (result : ℕ × Bool) × (k : ℕ) × (wait_from fuel w round waited ≡ some result)
      × EndsAt round waited result k

  abbrev gives_up : ℕ → ℕ → Bool
  gives_up round waited = leb w.limit waited || not (w.sleep round)

  wait_step :
      (fuel round waited : ℕ)
      → (contended (w.sample round) w.cpus ≡ true
          → gives_up round waited ≡ false
          → Finishes (suc fuel) round waited)
      → Finishes (suc fuel) round waited
  unfolding wait_from
  wait_step fuel round waited on = elim (Bool-cases (contended (w.sample round) w.cpus)) [
    | inr quiet ↦ (
      (waited, false),
      0,
      rw quiet refl,
      record {
        busy = tt;
        waited_for = omega arith;
        final = round;
        final_at = omega arith;
        last = quiet;
        bounded = inl refl;
        given_up = refl;
      },
    )
    | inl busy ↦ elim (Bool-cases (gives_up round waited)) [
      | inl stop ↦ (
        (waited, true),
        0,
        rw (busy, stop) refl,
        record {
          busy = tt;
          waited_for = omega arith;
          final = round;
          final_at = omega arith;
          last = busy;
          bounded = inl refl;
          given_up = ground (arith, stop);
        },
      )
      | inr go ↦ on busy go
    ]
  ]

  wait_from-ends :
      (fuel round waited : ℕ)
      → 0 < w.poll
      → w.limit ≤ waited + fuel * w.poll
      → Finishes (suc fuel) round waited
  unfolding wait_from
  wait_from-ends zero round waited h e =
      wait_step zero round waited λ busy go. absurd (ground (arith, go, e))
  wait_from-ends (suc fuel) round waited h e = wait_step (suc fuel) round waited λ busy go.
      let (result, k, same, ends) =
        wait_from-ends fuel (suc round) (waited + w.poll) h (omega (arith, e)) in
      (
        result,
        suc k,
        rw (busy, go) same,
        record {
          busy = (busy, ground (arith, go), ends.busy);
          waited_for = omega (arith, ends.waited_for);
          final = ends.final;
          final_at = omega (arith, ends.final_at);
          last = ends.last;
          bounded = inr (elim ends.bounded [
            | inl first ↦ ground (arith, first, ends.waited_for, go)
            | inr below ↦ below
          ]);
          given_up = ends.given_up;
        },
      )

  -- The wait for a quiet machine ends, with fuel for one round more than the polls that fill the limit:
  -- after some rounds of sleep in which the machine was contended. It has waited for so many polls, for
  -- less than a poll over the limit, and it reports whether the machine still was contended; it gives up
  -- only where the limit is reached or a sleep ended with an error.
  pub wait-ends :
      0 < w.poll
      → (result : ℕ × Bool) × (k : ℕ) × (wait (suc (w.limit / w.poll + 1)) w ≡ some result)
        × EndsAt 0 0 result k
  unfolding wait
  wait-ends h =
      wait_from-ends (w.limit / w.poll + 1) 0 0 h
        (omega (arith, div-add-mod' w.limit w.poll, mod-lt w.limit h))
