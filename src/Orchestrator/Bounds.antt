-- ===== src/Orchestrator/Bounds.antt =====
-- internal/orchestrator/config.go: the bounds of a campaign, as they are given, filled in and checked.
-- Durations are in nanoseconds.
use gotorque.Prelude.{
  ℤ, pos, negsuc, is_negative, is_zero, below_one, ℕ, String, Bool, false, ◌||◌, if◌then◌else◌,
  str_eq,
}
use gotorque.Outcome.{Outcome, ok, err, ◌>>=◌}
use gotorque.Orchestrator.Types.{Config}

-- The `Config` that a caller gives.
pub record GivenConfig : Type 0 where
  pub workflow_name : String
  pub max_candidates : ℤ
  pub max_consecutive_failures : ℤ
  pub max_consecutive_inconclusive : ℤ
  pub deterministic_timeout : ℤ
  pub agent_timeout : ℤ
  pub max_concurrency : ℤ
  pub stop_when_ranking_exhausted : Bool

-- `20 * time.Minute`
abbrev pub twenty_minutes : ℤ
twenty_minutes = pos 1200000000000

-- `DefaultConfig`
abbrev pub default_config : GivenConfig
default_config = record {
  workflow_name = "go_optimizer_campaign";
  max_candidates = pos 12;
  max_consecutive_failures = pos 4;
  max_consecutive_inconclusive = pos 0;
  deterministic_timeout = twenty_minutes;
  agent_timeout = twenty_minutes;
  max_concurrency = pos 1;
  stop_when_ranking_exhausted = false;
}

-- One field of `withDefaults`.
abbrev pub or_default : ℤ → ℤ → ℤ
or_default given default = if is_zero given then default else given

-- `withDefaults`
unfoldable pub with_defaults : GivenConfig → GivenConfig
with_defaults c = record c {
  workflow_name =
      if str_eq c.workflow_name "" then default_config.workflow_name else c.workflow_name;
  max_candidates = or_default c.max_candidates default_config.max_candidates;
  max_consecutive_failures =
      or_default c.max_consecutive_failures default_config.max_consecutive_failures;
  deterministic_timeout = or_default c.deterministic_timeout default_config.deterministic_timeout;
  agent_timeout = or_default c.agent_timeout default_config.agent_timeout;
  max_concurrency = or_default c.max_concurrency default_config.max_concurrency;
}

-- `validate`; `ok` is a nil error.
unfoldable pub validate : GivenConfig → Outcome (Unit {0})
validate c =
    if below_one c.max_candidates
    then err "max candidates must be positive"
    else if below_one c.max_consecutive_failures
    then err "max consecutive failures must be positive"
    else if is_negative c.max_consecutive_inconclusive
    then err "max consecutive inconclusive cannot be negative"
    else if is_negative c.deterministic_timeout || is_negative c.agent_timeout
    then err "node timeouts cannot be negative"
    else if below_one c.max_concurrency
    then err "max concurrency must be positive"
    else ok tt

-- `normalized`
unfoldable pub normalized : GivenConfig → Outcome GivenConfig
normalized c = validate (with_defaults c) >>= λ _. ok (with_defaults c)

-- A number that is not negative.
abbrev pub magnitude : ℤ → ℕ
magnitude (pos n) = n
magnitude (negsuc n) = 0

-- The bounds that the graph reads from a configuration that was normalized.
abbrev pub bounds : GivenConfig → Config
bounds c = record {
  max_candidates = magnitude c.max_candidates;
  max_consecutive_failures = magnitude c.max_consecutive_failures;
  max_consecutive_inconclusive = magnitude c.max_consecutive_inconclusive;
  stop_when_ranking_exhausted = c.stop_when_ranking_exhausted;
}
