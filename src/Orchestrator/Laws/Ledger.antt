-- ===== src/Orchestrator/Laws/Ledger.antt =====
-- internal/orchestrator/ledger.go: the counters of a campaign against the tallies of its history.
use mathlib.Core.List.{foldl-append}
use native.Mathlib.Nat.{le_trans}
use gotorque.Prelude.{ℕ, ◌≤◌, max, Bool, List, [], ◌∷◌, ◌++◌, foldl, ◌≡◌, refl, arith, All}
use gotorque.Domain.{Decision}
use gotorque.Orchestrator.Types.{PriorCandidate, CampaignState, Config, CampaignRequest}
use gotorque.Orchestrator.Ledger.{Tallies, no_tallies, after, tally, tallies_of}
use gotorque.Orchestrator.Nodes.{prior_of, counted, initial_state, separate_bound}

-- One more verdict in a ledger is one more round of the fold.
pub tallies_of-append :
    (ledger : List PriorCandidate) (c : PriorCandidate) (separate : Bool)
    → tallies_of (ledger ++ c ∷ []) separate ≡ tally separate (tallies_of ledger separate) c
unfolding tallies_of
tallies_of-append ledger c separate = rw foldl-append

-- The counters of a state.
abbrev pub counters : CampaignState → Tallies
counters s = record {
  tried = s.candidates_tried;
  consecutive_failures = s.consecutive_failures;
  consecutive_inconclusive = s.consecutive_inconclusive;
}

-- The counters are the tallies of the history.
abbrev pub IsTallied : Bool → CampaignState → Type 0
IsTallied separate s = tallies_of s.prior_candidates separate ≡ counters s

pub initial_state-IsTallied :
    (cfg : Config) (req : CampaignRequest) → IsTallied (separate_bound cfg) (initial_state cfg req)
unfolding initial_state
initial_state-IsTallied cfg req = refl

tally-counted :
    (s : CampaignState) (separate : Bool)
    → tally separate (counters s) (prior_of s) ≡ counters (counted s separate)
unfolding tally counted
tally-counted s separate = ground arith

pub counted-history :
    (s : CampaignState) (separate : Bool)
    → (counted s separate).prior_candidates ≡ s.prior_candidates ++ prior_of s ∷ []
unfolding counted
counted-history s separate = refl

-- Counting a verdict keeps the counters the tallies of the history.
pub counted-IsTallied :
    (s : CampaignState) (separate : Bool)
    → IsTallied separate s
    → IsTallied separate (counted s separate)
counted-IsTallied s separate h =
    rw (counted-history s separate, tallies_of-append s.prior_candidates (prior_of s) separate, h)
      (tally-counted s separate)

-- No attempt of a ledger is above a number.
abbrev pub AttemptsUpTo : ℕ → List PriorCandidate → Type 0
AttemptsUpTo n = All λ (c : PriorCandidate). c.attempt ≤ n

tried-after : (t : Tallies) (d : Decision) (separate : Bool) → (after t d separate).tried ≡ t.tried
unfolding after
tried-after t d separate = ground arith

tally-tried :
    (separate : Bool) (t : Tallies) (c : PriorCandidate)
    → (t.tried ≤ (tally separate t c).tried) × (c.attempt ≤ (tally separate t c).tried)
unfolding tally
tally-tried separate t c =
    let same = tried-after (record t { tried = max t.tried c.attempt }) c.decision separate in
    (omega (arith, same), omega (arith, same))

foldl-tally-tried :
    (separate : Bool) (t : Tallies) (ledger : List PriorCandidate)
    → let out = (foldl (tally separate) t ledger).tried in (t.tried ≤ out) × AttemptsUpTo out ledger
foldl-tally-tried separate t [] = (omega arith, tt)
foldl-tally-tried separate t (c ∷ cs) =
    let (grows, rest) = foldl-tally-tried separate (tally separate t c) cs in
    let (old, new) = tally-tried separate t c in (le_trans old grows, (le_trans new grows, rest))

-- The number of the next attempt is above every recorded one, whatever order they come in.
pub tallies_of-attempts :
    (ledger : List PriorCandidate) (separate : Bool)
    → AttemptsUpTo (tallies_of ledger separate).tried ledger
unfolding tallies_of
tallies_of-attempts ledger separate = (foldl-tally-tried separate no_tallies ledger).1
