-- ===== src/Orchestrator/Laws/Frame.antt =====
-- internal/orchestrator/orchestrator.go: what the nodes leave alone until a verdict is counted.
use gotorque.Prelude.{ℕ, zero, suc, String, Option, none, some, List, ◌≡◌, arith}
use gotorque.Outcome.{
  Outcome, ok, err, Run, Yields, Yields-bind, Yields-any, Yields-map, Ensures, Ensures-map,
}
use gotorque.Orchestrator.Types.{
  Config, CampaignState, Target, AnalystResult, OptimizerResult, Assessment, SourceExcerpt,
  no_proposal,
}
use gotorque.Orchestrator.Termination.{role_optimizer}
use gotorque.Orchestrator.Targets.{plan_next, plan_target, next_target, tried_targets}
use gotorque.Orchestrator.Nodes.{
  Answer, delivered, failed, silent, Route, go_on, finish, reask, degrade, attach_excerpts,
  analysed, stop_after_analysis, hold_candidate, bind_assessment, evaluate,
}
use gotorque.Orchestrator.Campaign.{Ask, ask_once, route_ask, ask_loop}

-- The request, the history, the counters and the accepted candidates are the same.
pub record Keeps (s t : CampaignState) : Type 0 where
  pub request : t.request ≡ s.request
  pub prior_candidates : t.prior_candidates ≡ s.prior_candidates
  pub candidates_tried : t.candidates_tried ≡ s.candidates_tried
  pub consecutive_failures : t.consecutive_failures ≡ s.consecutive_failures
  pub consecutive_inconclusive : t.consecutive_inconclusive ≡ s.consecutive_inconclusive
  pub accepted_candidates : t.accepted_candidates ≡ s.accepted_candidates

pub Keeps-trans : {s t u : CampaignState} → Keeps s t → Keeps t u → Keeps s u
Keeps-trans a b = ground arith

pub degrade-Keeps :
    {A : Type 0} (role : String) (empty : A) (a : Answer A) (s : CampaignState)
    → Keeps s (degrade role empty a s).1
unfolding degrade
degrade-Keeps role empty (delivered a) s = ground arith
degrade-Keeps role empty (failed c) s = ground arith
degrade-Keeps role empty silent s = ground arith

plan_next-Keeps : (t : Option Target) (s : CampaignState) → Keeps s (plan_next t s)
unfolding plan_next
plan_next-Keeps none s = ground arith
plan_next-Keeps (some t) s = ground arith

plan_target-Keeps : (s : CampaignState) → Keeps s (plan_target s)
unfolding plan_target
plan_target-Keeps s = plan_next-Keeps (next_target s.analysis.targets (tried_targets s)) s

attach-Keeps :
    (excerpts : AnalystResult → Outcome (List SourceExcerpt)) (r : AnalystResult)
    (s : CampaignState)
    → Keeps s (attach_excerpts excerpts r s)
unfolding attach_excerpts
attach-Keeps excerpts r s = ground arith

pub analysed-Keeps :
    (excerpts : AnalystResult → Outcome (List SourceExcerpt)) (r : AnalystResult)
    (s : CampaignState)
    → Keeps s (analysed excerpts r s)
unfolding analysed
analysed-Keeps excerpts r s =
    let attached = attach_excerpts excerpts r (record s { analysis = r }) in
    ground (arith, attach-Keeps excerpts r (record s { analysis = r }), plan_target-Keeps attached)

pub stop-Keeps : (cfg : Config) (s : CampaignState) → Keeps s (stop_after_analysis cfg s).0
unfolding stop_after_analysis
stop-Keeps cfg s = ground arith

hold-Keeps :
    (repair : String) (p : OptimizerResult) (a : Assessment) (s : CampaignState)
    → Keeps s (hold_candidate repair p a s).0
unfolding hold_candidate
hold-Keeps repair p a s = ground arith

evaluate-Keeps :
    (answer : Outcome (OptimizerResult × String)) (assessed : Outcome Assessment)
    (s : CampaignState)
    → Yields (λ p. Keeps s p.0) (evaluate answer assessed s)
unfolding evaluate
evaluate-Keeps (err e) assessed s = tt
evaluate-Keeps (ok p) (err e) s = tt
evaluate-Keeps (ok p) (ok a) s =
    Yields-bind (λ _. Unit) (λ q. Keeps s q.0) (bind_assessment a) _ (Yields-any _)
      λ bound _. hold-Keeps p.1 p.0 bound s

ask_once-Keeps : (ask : Ask) (s : CampaignState) → Yields (λ p. Keeps s p.0) (ask_once ask s)
unfolding ask_once
ask_once-Keeps ask s =
    let (answer, s') = degrade role_optimizer (no_proposal, "") ask.optimizer s in
    let kept = degrade-Keeps role_optimizer (no_proposal, "") ask.optimizer s in
    Yields-map (λ p k. Keeps-trans kept k) (evaluate answer ask.assessed s')
      (evaluate-Keeps answer ask.assessed s')

route_ask-Keeps :
    (s : CampaignState) (again : CampaignState → Run CampaignState)
    (out : Outcome (CampaignState × Route))
    → Yields (λ p. Keeps s p.0) out
    → ((t : CampaignState) → Keeps s t → Ensures (Keeps s) (again t))
    → Ensures (Keeps s) (route_ask again out)
unfolding route_ask
route_ask-Keeps s again (ok (t, reask)) h k = k t h
route_ask-Keeps s again (ok (t, go_on)) h k = h
route_ask-Keeps s again (ok (t, finish)) h k = h
route_ask-Keeps s again (err e) h k = tt

-- Asking the optimizer, once or more, leaves them alone.
pub ask_loop-Keeps :
    (fuel : ℕ) (asks : ℕ → Ask) (s : CampaignState) → Ensures (Keeps s) (ask_loop fuel asks s)
unfolding ask_loop
ask_loop-Keeps zero asks s = tt
ask_loop-Keeps (suc fuel) asks s =
    route_ask-Keeps s _ (ask_once (asks 0) s) (ask_once-Keeps (asks 0) s) λ t kept.
      Ensures-map (λ u k. Keeps-trans kept k) (ask_loop fuel (λ n. asks (suc n)) t)
        (ask_loop-Keeps fuel (λ n. asks (suc n)) t)
