-- ===== src/Orchestrator/Laws/Total.antt =====
-- internal/orchestrator/orchestrator.go: the fuel of one cycle, and how often it asks the optimizer.
use gotorque.Prelude.{
  ℕ, String, true, false, none, some, ◌≡◌, refl, arith, str_eq, Bool-cases, inl, inr,
}
use gotorque.Outcome.{Outcome, ok, err, Run, follow, Yields, Yields-bind, Yields-any, Yields-map}
use gotorque.Orchestrator.Types.{
  Config, CampaignState, CandidateEvidence, OptimizerResult, Assessment, no_proposal, no_analysis,
}
use gotorque.Orchestrator.Termination.{role_optimizer, role_analyst}
use gotorque.Orchestrator.Nodes.{
  Answer, delivered, failed, silent, Route, go_on, finish, reask, degrade, hold_candidate,
  bind_assessment, evaluate, reaskable, merge_analysis,
}
use gotorque.Orchestrator.Campaign.{
  Ask, CycleInput, ask_once, route_ask, ask_loop, after_merge, cycle,
}

-- The run did not exhaust its fuel.
abbrev pub Returns : {A : Type 0} → Run A → Type 0
Returns none = ⊥
Returns (some r) = Unit

reaskable-once :
    (s : CampaignState) (e : CandidateEvidence)
    → str_eq s.reask_cause "" ≡ false
    → reaskable s e ≡ false
unfolding reaskable
reaskable-once s e h = ground arith

reaskable-cause :
    (s : CampaignState) (e : CandidateEvidence)
    → reaskable s e ≡ true
    → str_eq e.reask_cause "" ≡ false
unfolding reaskable
reaskable-cause s e h = ground arith

-- What a check of the candidate says of asking again: it names a cause, and it is done once.
abbrev AsksOnce : CampaignState → CampaignState × Route → Type 0
AsksOnce s p =
    (p.1 ≡ reask → str_eq p.0.reask_cause "" ≡ false)
    × (str_eq s.reask_cause "" ≡ false → p.1 ≡ go_on)

hold-AsksOnce :
    (repair : String) (p : OptimizerResult) (a : Assessment) (s : CampaignState)
    → AsksOnce s (hold_candidate repair p a s)
unfolding hold_candidate
hold-AsksOnce repair p a s =
    let evidence = record a.evidence { proposal_repair = repair; reasked_for = s.reask_cause } in
    let held = record s { proposal = p; candidate = evidence; verdict = a.verdict } in
    elim (Bool-cases (reaskable held evidence)) [
      | inl e ↦ rw e (
        λ _. reaskable-cause held evidence e,
        λ h. let once = reaskable-once held evidence h in cc,
      )
      | inr e ↦ rw e (λ h. cc, λ h. refl)
    ]

evaluate-AsksOnce :
    (answer : Outcome (OptimizerResult × String)) (assessed : Outcome Assessment)
    (s : CampaignState)
    → Yields (AsksOnce s) (evaluate answer assessed s)
unfolding evaluate
evaluate-AsksOnce (err e) assessed s = tt
evaluate-AsksOnce (ok p) (err e) s = tt
evaluate-AsksOnce (ok p) (ok a) s =
    Yields-bind (λ _. Unit) (AsksOnce s) (bind_assessment a) _ (Yields-any _)
      λ bound _. hold-AsksOnce p.1 p.0 bound s

degrade-reask_cause :
    {A : Type 0} (role : String) (empty : A) (a : Answer A) (s : CampaignState)
    → (degrade role empty a s).1.reask_cause ≡ s.reask_cause
unfolding degrade
degrade-reask_cause role empty (delivered a) s = refl
degrade-reask_cause role empty (failed c) s = refl
degrade-reask_cause role empty silent s = refl

ask_once-AsksOnce : (ask : Ask) (s : CampaignState) → Yields (AsksOnce s) (ask_once ask s)
unfolding ask_once
ask_once-AsksOnce ask s =
    let (answer, s') = degrade role_optimizer (no_proposal, "") ask.optimizer s in
    let same = degrade-reask_cause role_optimizer (no_proposal, "") ask.optimizer s in
    Yields-map {P = AsksOnce s'} {Q = AsksOnce s}
      (λ p (named, once). (named, λ h. once (rw same h))) (evaluate answer ask.assessed s')
      (evaluate-AsksOnce answer ask.assessed s')

route_ask-Returns :
    (s : CampaignState) (again : CampaignState → Run CampaignState)
    (out : Outcome (CampaignState × Route))
    → Yields (AsksOnce s) out
    → ((t : CampaignState) → (str_eq t.reask_cause "" ≡ false) → Returns (again t))
    → Returns (route_ask again out)
unfolding route_ask
route_ask-Returns s again (ok (t, reask)) h k = k t (h.0 refl)
route_ask-Returns s again (ok (t, go_on)) h k = tt
route_ask-Returns s again (ok (t, finish)) h k = tt
route_ask-Returns s again (err e) h k = tt

route_ask-last :
    (s : CampaignState) (again : CampaignState → Run CampaignState)
    (out : Outcome (CampaignState × Route))
    → Yields (AsksOnce s) out
    → str_eq s.reask_cause "" ≡ false
    → Returns (route_ask again out)
unfolding route_ask
route_ask-last s again (ok (t, reask)) h asked = let once = h.1 asked in cc
route_ask-last s again (ok (t, go_on)) h asked = tt
route_ask-last s again (ok (t, finish)) h asked = tt
route_ask-last s again (err e) h asked = tt

-- Two asks are enough, whatever the optimizer and the bench answer.
pub ask_loop-Returns : (asks : ℕ → Ask) (s : CampaignState) → Returns (ask_loop 2 asks s)
unfolding ask_loop
ask_loop-Returns asks s =
    route_ask-Returns s _ (ask_once (asks 0) s) (ask_once-AsksOnce (asks 0) s)
      λ t asked. route_ask-last t _ (ask_once (asks 1) t) (ask_once-AsksOnce (asks 1) t) asked

pub follow-Returns :
    {A B : Type 0} (m : Run A) (f : A → Run B)
    → Returns m
    → ((a : A) → Returns (f a))
    → Returns (follow m f)
follow-Returns none f h k = h
follow-Returns (some (ok a)) f h k = k a
follow-Returns (some (err e)) f h k = tt

after_merge-Returns :
    (cfg : Config) (input : CycleInput) (p : CampaignState × Route)
    → Returns (after_merge cfg input p)
unfolding after_merge
after_merge-Returns cfg input (s, finish) = tt
after_merge-Returns cfg input (s, _) =
    follow-Returns (ask_loop 2 input.asks s) _ (ask_loop-Returns input.asks s) λ asked. tt

-- A cycle returns: it asks the optimizer at most twice.
pub cycle-Returns :
    (cfg : Config) (input : CycleInput) (s : CampaignState) → Returns (cycle cfg input s)
unfolding cycle
cycle-Returns cfg input s =
    let (answer, s') = degrade role_analyst no_analysis input.analyst s in
    follow-Returns (some (merge_analysis cfg input.excerpts answer s')) (after_merge cfg input) tt
      (after_merge-Returns cfg input)
