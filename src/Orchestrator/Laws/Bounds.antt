-- ===== src/Orchestrator/Laws/Bounds.antt =====
-- internal/orchestrator/config.go: what a normalized configuration promises.
use gotorque.Prelude.{is_negative, below_one, ◌≤◌, Bool, false, not, ◌||◌, ◌≡◌, arith}
use gotorque.Outcome.{ok, Yields, is_ok}
use gotorque.Orchestrator.Bounds.{GivenConfig, with_defaults, validate, normalized, bounds}

-- A configuration that the graph can run on.
pub record IsUsable (c : GivenConfig) : Type 0 where
  pub candidates : below_one c.max_candidates ≡ false
  pub failures : below_one c.max_consecutive_failures ≡ false
  pub undecided : is_negative c.max_consecutive_inconclusive ≡ false
  pub deterministic : below_one c.deterministic_timeout ≡ false
  pub agent : below_one c.agent_timeout ≡ false
  pub concurrency : below_one c.max_concurrency ≡ false

-- No bound and no duration is negative.
abbrev pub none_negative : GivenConfig → Bool
none_negative c = not (
    is_negative c.max_candidates
    || (is_negative c.max_consecutive_failures
        || (is_negative c.max_consecutive_inconclusive
            || (is_negative c.deterministic_timeout
                || (is_negative c.agent_timeout || is_negative c.max_concurrency)))))

-- A configuration is taken exactly where none of its bounds and durations is negative, since a zero
-- asks for the default. What comes out is usable, the graph may try at least one candidate under it,
-- and normalizing it again changes nothing.
pub normalized-IsUsable :
    (c : GivenConfig)
    → (is_ok (normalized c) ≡ none_negative c)
      × Yields
          (λ d. IsUsable d × (1 ≤ (bounds d).max_candidates) × (normalized d ≡ ok d))
          (normalized c)
unfolding normalized validate with_defaults
normalized-IsUsable c = (ground arith, ground arith)
