-- ===== src/Campaign/Laws/Passes.antt =====
-- internal/campaign/paired.go: one pass over the table of the signed-rank distribution, in place.
use gotorque.Prelude.{
  ◌>>=◌, ℕ, suc, zero, ◌+◌, ◌-◌, ◌≤◌, ◌<◌, true, ◌&&◌, Option, none, some, List, [], ◌∷◌,
  if◌then◌else◌, leb, ltb, ◌==◌, length, ◌≡◌, refl, ap, ◌∙◌, arith, Bool-cases, inl, inr,
}
use gotorque.Campaign.Paired.{at, put_at, add_at, add_rank}

eq_ℕ : (a b : ℕ) → (a == b) ≡ true → a ≡ b
eq_ℕ a b h = ground (arith, h)

module _ {A : Type 0} where
  at-inside : (xs : List A) (i : ℕ) → i < length xs → (a : A) × (at xs i ≡ some a)
  at-inside [] i h = absurd (omega (arith, h))
  at-inside (x ∷ xs) zero h = (x, refl)
  at-inside (x ∷ xs) (suc i) h = at-inside xs i (omega (arith, h))

  length-put_at : (xs : List A) (i : ℕ) (y : A) → length (put_at xs i y) ≡ length xs
  length-put_at [] i y = refl
  length-put_at (x ∷ xs) zero y = refl
  length-put_at (x ∷ xs) (suc i) y = ap suc (length-put_at xs i y)

  at-put_at :
      (xs : List A) (i : ℕ) (y : A) (j : ℕ)
      → i < length xs
      → at (put_at xs i y) j ≡ (if j == i then some y else at xs j)
  at-put_at [] i y j h = absurd (omega (arith, h))
  at-put_at (x ∷ xs) zero y zero h = ground arith
  at-put_at (x ∷ xs) zero y (suc j) h = ground arith
  at-put_at (x ∷ xs) (suc i) y zero h = ground arith
  at-put_at (x ∷ xs) (suc i) y (suc j) h = ground (arith, at-put_at xs i y j (omega (arith, h)))

module _ {F : Type 0} (add : F → F → F) where
  abbrev pub both : Option F → Option F → Option F
  both (some a) (some b) = some (add a b)
  both _ _ = none

  add_at-some :
      (rank k : ℕ) (ways : List F) (a b : F)
      → at ways (rank + k) ≡ some a
      → at ways (rank + k - rank) ≡ some b
      → add_at add ways (rank + k) rank ≡ some (put_at ways (rank + k) (add a b))
  add_at-some rank k ways a b ea eb = rw (ea, eb) refl

  -- What one pass for a rank leaves at an index.
  abbrev pub passed : ℕ → ℕ → List F → ℕ → Option F
  passed rank k ways i =
      if leb rank i && ltb i (rank + k) then both (at ways i) (at ways (i - rank)) else at ways i

  pass_step :
      (rank k : ℕ) (ways : List F) (a b : F)
      → at ways (rank + k) ≡ some a
      → at ways (rank + k - rank) ≡ some b
      → rank + k < length ways
      → (i : ℕ) → passed rank k (put_at ways (rank + k) (add a b)) i ≡ passed rank (suc k) ways i
  pass_step rank k ways a b ea eb h i = elim (Bool-cases (i == rank + k)) [
    | inl here ↦
        rw (at-put_at ways (rank + k) (add a b) i h, here, eq_ℕ i (rank + k) here, ea, eb)
          (ground arith)
    | inr other ↦
        rw
          (
            at-put_at ways (rank + k) (add a b) i h,
            at-put_at ways (rank + k) (add a b) (i - rank) h,
            other,
          )
          (ground (arith, other))
  ]

  pub add_rank-at :
      (rank k : ℕ) (ways : List F)
      → rank + k ≤ length ways
      → (out : List F) × (add_rank add rank k ways ≡ some out)
        × (length out ≡ length ways)
        × ((i : ℕ) → at out i ≡ passed rank k ways i)
  unfolding add_rank
  add_rank-at rank zero ways h = (ways, refl, refl, λ i. ground arith)
  add_rank-at rank (suc k) ways h =
      let (a, ea) = at-inside ways (rank + k) (omega (arith, h)) in
      let (b, eb) = at-inside ways (rank + k - rank) (omega (arith, h)) in
      let same = length-put_at ways (rank + k) (add a b) in
      let (out, e, kept, view) =
        add_rank-at rank k (put_at ways (rank + k) (add a b)) (omega (arith, h, same)) in
      (
        out,
        ap (λ o. o >>= λ more. add_rank add rank k more) (add_at-some rank k ways a b ea eb) ∙ e,
        kept ∙ same,
        λ i. view i ∙ pass_step rank k ways a b ea eb (omega (arith, h)) i,
      )
