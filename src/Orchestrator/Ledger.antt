-- ===== src/Orchestrator/Ledger.antt =====
-- internal/orchestrator/ledger.go: the counters that the stop bounds read.
use gotorque.Prelude.{ℕ, ◌+◌, max, Bool, List, foldl, if◌then◌else◌}
use gotorque.Domain.{Decision, accepted, rejected, inconclusive, other}
use gotorque.Orchestrator.Types.{PriorCandidate}

-- `tallies`
pub record Tallies : Type 0 where
  pub tried : ℕ
  pub consecutive_failures : ℕ
  pub consecutive_inconclusive : ℕ

abbrev pub no_tallies : Tallies
no_tallies = record { tried = 0; consecutive_failures = 0; consecutive_inconclusive = 0 }

-- `tallies.after`
unfoldable pub after : Tallies → Decision → Bool → Tallies
after t accepted separate = record t { consecutive_failures = 0; consecutive_inconclusive = 0 }
after t rejected separate = record t {
  consecutive_failures = t.consecutive_failures + 1;
  consecutive_inconclusive = 0;
}
after t inconclusive separate = record t {
  consecutive_inconclusive = t.consecutive_inconclusive + 1;
  consecutive_failures = if separate then t.consecutive_failures else t.consecutive_failures + 1;
}
after t (other text) separate = t

-- One round of the loop of `talliesOf`.
unfoldable pub tally : Bool → Tallies → PriorCandidate → Tallies
unfolding after
tally separate t c = after (record t { tried = max t.tried c.attempt }) c.decision separate

-- `talliesOf`
unfoldable pub tallies_of : List PriorCandidate → Bool → Tallies
tallies_of ledger separate = foldl (tally separate) no_tallies ledger
