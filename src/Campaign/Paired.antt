-- ===== src/Campaign/Paired.antt =====
-- internal/campaign/paired.go: the exact distribution of the
-- signed-rank statistic. Tables are lists, and the counts in them have any addition.
use gotorque.Prelude.{ℕ, suc, zero, ◌+◌, ◌-◌, ◌*◌, ◌/◌, Option, none, some, List, [], ◌∷◌, ◌>>=◌}

-- `values[i]`, for an index that is in the table; and `values[i] = x`.
abbrev pub at {ℓ} : {A : Type ℓ} → List A → ℕ → Option A
at [] i = none
at (x ∷ xs) zero = some x
at (x ∷ xs) (suc i) = at xs i

abbrev pub put_at {ℓ} : {A : Type ℓ} → List A → ℕ → A → List A
put_at [] i y = []
put_at (x ∷ xs) zero y = y ∷ xs
put_at (x ∷ xs) (suc i) y = x ∷ put_at xs i y

-- `make([]float64, n)`, with the number zero
abbrev pub zeros : {F : Type 0} → F → ℕ → List F
zeros z zero = []
zeros z (suc k) = z ∷ zeros z k

module _ {F : Type 0} (add : F → F → F) where
  -- `ways[s] += ways[s-rank]`; an index out of range would panic, and is `none` here.
  abbrev pub add_at : List F → ℕ → ℕ → Option (List F)
  add_at ways s rank = at ways s >>= λ a. at ways (s - rank) >>= λ b. some (put_at ways s (add a b))

  -- The inner loop of `exactSignedRankP`, from the sum `rank + k - 1` down to `rank`.
  unfoldable pub add_rank : ℕ → ℕ → List F → Option (List F)
  add_rank rank zero ways = some ways
  add_rank rank (suc k) ways = add_at ways (rank + k) rank >>= λ more. add_rank rank k more

  -- The outer loop, over the ranks up to a number, for sums up to `top`.
  unfoldable pub add_ranks : ℕ → ℕ → List F → Option (List F)
  add_ranks top zero ways = some ways
  add_ranks top (suc r) ways =
      add_ranks top r ways >>= λ more. add_rank (suc r) (suc top - suc r) more

  -- The table `ways` of `exactSignedRankP` for `n` differences.
  unfoldable pub rank_ways : F → F → ℕ → Option (List F)
  rank_ways z one n = let top = n * (n + 1) / 2 in add_ranks top n (one ∷ zeros z top)
