-- ===== src/Campaign/Laws/SignedRank.antt =====
-- internal/campaign/paired.go: the table of the signed-rank distribution against the sums of the sign
-- assignments.
use gotorque.Prelude.{
  ℕ, suc, zero, ◌+◌, ◌-◌, ◌*◌, ◌/◌, ◌≤◌, ◌<◌, true, some, List, [], ◌∷◌, ◌++◌, if◌then◌else◌, leb,
  ltb, ◌==◌, length, map, ◌≡◌, refl, ap, ◌∙◌, arith, ◌>>=◌, Bool-cases, inl, inr,
}
use gotorque.Campaign.Paired.{at, add_rank, add_ranks, zeros, rank_ways}
use gotorque.Campaign.Laws.Passes.{passed, add_rank-at}

below : (top r i : ℕ) → r < top → i ≤ top → ltb i (suc r + (suc top - suc r)) ≡ true
below top r i h le = ground (arith, h, le)

module _ {F : Type 0} (z : F) where
  at-zeros : (k i : ℕ) → i < k → at (zeros z k) i ≡ some z
  at-zeros zero i h = absurd (omega (arith, h))
  at-zeros (suc k) zero h = refl
  at-zeros (suc k) (suc i) h = at-zeros k i (omega (arith, h))

  length-zeros : (k : ℕ) → length (zeros z k) ≡ k
  length-zeros zero = refl
  length-zeros (suc k) = ap suc (length-zeros k)

module _ {F : Type 0} (add : F → F → F) (z one : F) where
  -- The number of sign assignments of the ranks up to a number whose positive ranks have a sum.
  abbrev pub count : ℕ → ℕ → F
  count zero zero = one
  count zero (suc s) = z
  count (suc r) s =
      let fewer = count r s in
      let with = count r (s - suc r) in if leb (suc r) s then add fewer with else fewer

  at-start : (top i : ℕ) → i ≤ top → at (one ∷ zeros z top) i ≡ some (count zero i)
  at-start top zero h = refl
  at-start top (suc i) h = at-zeros z top i (omega (arith, h))

  -- A table of the counts of the sums up to `top`.
  abbrev pub Counts : ℕ → ℕ → List F → Type 0
  Counts top n out = (length out ≡ suc top) × ((i : ℕ) → i ≤ top → at out i ≡ some (count n i))

  pass-count :
      (top r : ℕ) (ways : List F)
      → r < top
      → Counts top r ways
      → (i : ℕ) → i ≤ top
      → passed add (suc r) (suc top - suc r) ways i ≡ some (count (suc r) i)
  pass-count top r ways h (size, view) i le = elim (Bool-cases (leb (suc r) i)) [
    | inl reached ↦
        rw (reached, below top r i h le, view i le, view (i - suc r) (omega (arith, le))) refl
    | inr short ↦ rw (short, view i le) refl
  ]

  add_ranks-Counts :
      (top n : ℕ)
      → n ≤ top
      → (out : List F) × (add_ranks add top n (one ∷ zeros z top) ≡ some out) × Counts top n out
  unfolding add_ranks
  add_ranks-Counts top zero h =
      (one ∷ zeros z top, refl, (ap suc (length-zeros z top), at-start top))
  add_ranks-Counts top (suc r) h =
      let (ways, made, (size, view)) = add_ranks-Counts top r (omega (arith, h)) in
      let (out, e, same, after) =
        add_rank-at add (suc r) (suc top - suc r) ways (omega (arith, h, size)) in
      (
        out,
        ap (λ o. o >>= λ more. add_rank add (suc r) (suc top - suc r) more) made ∙ e,
        (same ∙ size, λ i le. after i ∙ pass-count top r ways h (size, view) i le),
      )

-- How often a number is in a list.
abbrev pub times : ℕ → List ℕ → ℕ
times s [] = 0
times s (x ∷ xs) = (if x == s then 1 else 0) + times s xs

-- The sum of the positive ranks of each sign assignment of the ranks up to a number.
abbrev pub sums : ℕ → List ℕ
sums zero = 0 ∷ []
sums (suc r) = sums r ++ map (λ t. t + suc r) (sums r)

times-append : (s : ℕ) (xs ys : List ℕ) → times s (xs ++ ys) ≡ times s xs + times s ys
times-append s [] ys = omega arith
times-append s (x ∷ xs) ys = omega (arith, times-append s xs ys)

times-shift :
    (s k : ℕ) (xs : List ℕ)
    → times s (map (λ t. t + k) xs) ≡ (if leb k s then times (s - k) xs else 0)
times-shift s k [] = ground arith
times-shift s k (x ∷ xs) = rw (times-shift s k xs) (ground arith)

count-times : (n s : ℕ) → count ◌+◌ 0 1 n s ≡ times s (sums n)
count-times zero zero = ground arith
count-times zero (suc s) = ground arith
count-times (suc r) s =
    rw
      (
        times-append s (sums r) (map (λ t. t + suc r) (sums r)),
        times-shift s (suc r) (sums r),
        count-times r s,
        count-times r (s - suc r),
      )
      (ground arith)

rank-le-top : (n : ℕ) → n ≤ n * (n + 1) / 2
rank-le-top zero = omega arith
rank-le-top (suc m) = omega arith

-- With exact counts, the table that the loops of `exactSignedRankP` update in place ends without an index
-- out of range, and at each sum up to n(n+1)/2 it has the number of sign assignments of the ranks 1 to n
-- whose positive ranks have that sum.
pub rank_ways-times :
    (n s : ℕ)
    → s ≤ n * (n + 1) / 2
    → (rank_ways ◌+◌ 0 1 n >>= λ ways. at ways s) ≡ some (times s (sums n))
unfolding rank_ways
rank_ways-times n s h =
    let (out, made, (size, view)) = add_ranks-Counts ◌+◌ 0 1 (n * (n + 1) / 2) n (rank-le-top n) in
    ap (λ o. o >>= λ ways. at ways s) made ∙ view s h ∙ ap some (count-times n s)
