-- ===== src/Campaign/Tests.antt =====
-- internal/campaign: the theorems at concrete inputs.
use gotorque.Prelude.{
  ◌==◌, Option, ℕ, suc, ◌+◌, ◌/◌, ◌≤◌, Bool, true, false, ◌||◌, none, some, List, [], ◌∷◌, ◌≡◌,
  refl, if◌then◌else◌, length, leb, ◌>>=◌, arith,
}
use gotorque.Outcome.{ok, Yields}
use gotorque.Domain.{accepted}
use gotorque.Float64.{finite}
use gotorque.Float64.Fixed.{not_a_number, Num, fixed_float, whole_num}
use gotorque.Manifest.Types.{PerformancePolicy}
use gotorque.Manifest.Tradeoff.{Tradeoff, apply, allowed}
use gotorque.Policy.Types.{with_defaults}
use gotorque.Policy.Stress.{guardrail_named}
use gotorque.Orchestrator.Types.{
  Config, Target, CampaignState, no_analysis, no_proposal, no_evaluation, no_evidence, no_review,
}
use gotorque.Orchestrator.Laws.Targets.{is_closed, measured, unmeasured_attempts}
use gotorque.Campaign.Quiet.{QuietWaiter, wait, quiet_wait_limit, quiet_poll}
use gotorque.Campaign.Paired.{at, rank_ways, add_ranks, add_rank}
use gotorque.Campaign.Acceptance.{policy_config_from_manifest}
use gotorque.Orchestrator.Nodes.{apply_policy}
use gotorque.Campaign.Settle.{Recorded, settle}
use gotorque.Campaign.Laws.Settle.{Resumes, apply_policy-Resumes}
use gotorque.Campaign.History.{recorded_candidates, Past, load_history}
use gotorque.Campaign.Columns.{paired_values, columns_from, pair_differences}
use gotorque.Campaign.Laws.Columns.{
  pairs, differences, column_differences, paired_values-differences,
}
use gotorque.Campaign.Laws.Quiet.{EndsAt, wait-ends}
use gotorque.Campaign.Laws.SignedRank.{times, sums, rank_ways-times}
use gotorque.Campaign.Laws.Acceptance.{shared_limit, allowance-judged}
use gotorque.Campaign.Laws.History.{Distinct, with_history, measured_earlier, load_history-closes}

-- A machine that is loaded for two rounds.
abbrev busy_then_quiet : ℕ → List Num
busy_then_quiet n = (if leb 2 n then whole_num 1 else whole_num 9) ∷ []

abbrev waiter : QuietWaiter Num
waiter = record {
  sample = busy_then_quiet;
  cpus = 10;
  limit = quiet_wait_limit;
  poll = quiet_poll;
  sleep = λ _. true;
}

wait-ends_example :
    (result : ℕ × Bool) × (k : ℕ) × (wait (suc (quiet_wait_limit / quiet_poll + 1)) waiter
      ≡ some result)
    × EndsAt waiter 0 0 result k
wait-ends_example = wait-ends waiter (omega arith)

rank_ways-times_example : (rank_ways ◌+◌ 0 1 4 >>= λ ways. at ways 5) ≡ some (times 5 (sums 4))
rank_ways-times_example = rank_ways-times 4 5 (omega arith)

five_of_four : (rank_ways ◌+◌ 0 1 4 >>= λ ways. at ways 5) ≡ some 2
unfolding rank_ways add_ranks add_rank
five_of_four = refl

abbrev block : PerformancePolicy Num
block = record {
  primary_metric = "wall_time_ns";
  minimum_improvement_percent = whole_num 5;
  maximum_guardrail_regression_percent = whole_num 1;
  statistical_support_required = none;
  guardrails = [];
}

abbrev strict_memory : Tradeoff Num
strict_memory = record {
  name = "";
  objective = "";
  allow = ("peak_memory_bytes", whole_num 0) ∷ [];
}

-- An allowance of zero becomes the block's one percent.
allowance-judged_example :
    Yields
      (λ out.
        guardrail_named (with_defaults (policy_config_from_manifest out)) "peak_memory_bytes"
        ≡ some record {
          name = "peak_memory_bytes";
          maximum_regression_percent =
              if fixed_float.eq (allowed strict_memory "peak_memory_bytes") (whole_num 0)
              then shared_limit out
              else allowed strict_memory "peak_memory_bytes";
          required = true;
        })
      (apply strict_memory block)
allowance-judged_example = allowance-judged strict_memory block "peak_memory_bytes" refl

abbrev hot_loop : Target
hot_loop = record {
  location = "parse.go:10";
  function = "Parse";
  cause = "prealloc";
  remedy = "";
  fix_kind = "";
  callers = [];
}

abbrev earlier : Past Num
earlier = record {
  id = "c1";
  revision = "abc";
  candidate_records =
      record {
        attempt = 1;
        candidate_id = "d";
        hypothesis = "";
        target = some hot_loop;
        review_concerns = [];
        decision = accepted;
        reasons = [];
        comparisons = [];
        accepted = true;
        unmeasured = false;
        failure_detail = "";
      }
      ∷ [];
}

abbrev fresh_state : CampaignState
fresh_state = record {
  request = record {
    campaign_id = "c2";
    repository = "";
    build_target = "";
    optimization_mode = "";
    prior_targets = [];
    recorded_candidates = [];
  };
  hot_functions = [];
  analysis = no_analysis;
  target = none;
  proposal = no_proposal;
  candidate = no_evidence;
  verdict = no_evaluation;
  review = no_review;
  evaluation = no_evaluation;
  prior_candidates = [];
  candidates_tried = 0;
  consecutive_failures = 0;
  consecutive_inconclusive = 0;
  accepted_candidates = [];
  stop_reason = "";
  cycle_failures = [];
  provider_failure = "";
  outage_cycles = 0;
  reask_cause = "";
  source_excerpts = [];
}

load_history-closes_example :
    Yields
      (λ h.
        Distinct h.targets
        × (length h.priors ≤ 16)
        × (is_closed (with_history h fresh_state) "parse.go:10\0prealloc" ≡ (
            measured_earlier ok (λ _. ok earlier) "abc" "parse.go:10\0prealloc" ("one" ∷ [])
            || (measured "parse.go:10\0prealloc" fresh_state.prior_candidates
                || leb 2
                    (unmeasured_attempts "parse.go:10\0prealloc" fresh_state.prior_candidates)))))
      (load_history ok (λ _. ok earlier) (λ _. "accepted") ("one" ∷ []) "abc")
load_history-closes_example =
    load_history-closes ok (λ _. ok earlier) (λ _. "accepted") ("one" ∷ []) "abc" fresh_state
      "parse.go:10\0prealloc"

-- The state in which an accepted candidate is settled.
abbrev settling : CampaignState
settling = record fresh_state {
  proposal = record no_proposal { hypothesis = "make the slice once" };
  target = some hot_loop;
  candidate = record no_evidence { candidate_id = "d1"; hypothesis = "make the slice once" };
  verdict = record { candidate_id = "d1"; decision = accepted; reasons = "faster" ∷ [] };
}

abbrev no_records : Recorded Num
no_records = record {
  candidate_records = [];
  consecutive_failures = 0;
  consecutive_inconclusive = 0;
}

abbrev bounds_of_test : Config
bounds_of_test = record {
  max_candidates = 4;
  max_consecutive_failures = 2;
  max_consecutive_inconclusive = 0;
  stop_when_ranking_exhausted = false;
}

apply_policy-Resumes_example :
    Yields
      (λ (settled, st). Resumes (settle (ok tt) (ok tt) (ok tt) st [] no_records).0 settled)
      (apply_policy bounds_of_test
        (ok no_review)
        (λ st. (settle (ok tt) (ok tt) (ok tt) st [] no_records).1)
        settling)
unfolding recorded_candidates
apply_policy-Resumes_example =
    apply_policy-Resumes bounds_of_test settling (ok no_review) (ok tt) (ok tt) (ok tt) []
      no_records (refl, refl) refl

-- Three pairs, of which the second has no reading and the third no number.
abbrev slow_runs : List (Option Num)
slow_runs = some (whole_num 5) ∷ none ∷ some not_a_number ∷ []

abbrev quick_runs : List (Option Num)
quick_runs = some (whole_num 3) ∷ some (whole_num 3) ∷ some (whole_num 3) ∷ []

abbrev reading : Option Num → Option Num
reading value = value

paired_values-differences_example :
    (paired_values reading quick_runs slow_runs >>= λ cols. column_differences cols)
    ≡ some (
      length quick_runs == length slow_runs,
      if length quick_runs == length slow_runs
          then differences reading (pairs quick_runs slow_runs)
          else [],
    )
paired_values-differences_example = paired_values-differences reading quick_runs slow_runs

one_usable :
    (paired_values reading quick_runs slow_runs >>= λ cols. column_differences cols)
    ≡ some (true, whole_num 2 ∷ [])
unfolding paired_values columns_from pair_differences finite
one_usable = refl
