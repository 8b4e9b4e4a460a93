-- ===== src/Orchestrator/Campaign.antt =====
-- internal/orchestrator/orchestrator.go: the edges of the graph, as loops over its nodes. Fuel bounds
-- the loops of the model.
use gotorque.Prelude.{ℕ, zero, suc, String, Option, none, some, List, [], ◌∷◌}
use gotorque.Outcome.{Outcome, ok, err, ◌>>=◌, Run, follow}
use gotorque.Orchestrator.Types.{
  Config, CampaignRequest, CampaignState, CampaignResult, AnalystResult, no_analysis,
  OptimizerResult, no_proposal, ReviewerResult, no_review, Assessment, SourceExcerpt,
}
use gotorque.Orchestrator.Termination.{role_analyst, role_optimizer}
use gotorque.Orchestrator.Nodes.{
  Answer, Route, go_on, finish, reask, Settlement, degrade, initialize, discover, merge_analysis,
  evaluate, apply_policy, route, finalize,
}

-- One ask of the optimizer, with what the bench then assesses.
pub record Ask : Type 0 where
  pub optimizer : Answer (OptimizerResult × String)
  pub assessed : Outcome Assessment

-- What the roles and the bench answer in one cycle; `asks` are the asks of the optimizer in order.
pub record CycleInput : Type 0 where
  pub analyst : Answer AnalystResult
  pub excerpts : AnalystResult → Outcome (List SourceExcerpt)
  pub asks : ℕ → Ask
  pub reviewer : Answer ReviewerResult
  pub settles : Settlement → Outcome (Unit {0})

-- The nodes `optimizer` and `evaluate_candidate`, once.
unfoldable pub ask_once : Ask → CampaignState → Outcome (CampaignState × Route)
ask_once ask state =
    let (answer, state') = degrade role_optimizer (no_proposal, "") ask.optimizer state in
    evaluate answer ask.assessed state'

-- The routes out of `evaluate_candidate`: around once more, or on to the reviewer.
unfoldable pub route_ask :
    (CampaignState → Run CampaignState) → Outcome (CampaignState × Route) → Run CampaignState
route_ask again (ok (state, reask)) = again state
route_ask again (ok (state, _)) = some (ok state)
route_ask again (err e) = some (err e)

-- The edges between `optimizer` and `evaluate_candidate`.
unfoldable pub ask_loop : ℕ → (ℕ → Ask) → CampaignState → Run CampaignState
unfolding route_ask
ask_loop zero asks state = none
ask_loop (suc fuel) asks state =
    route_ask (λ state'. ask_loop fuel (λ n. asks (suc n)) state') (ask_once (asks 0) state)

-- The nodes `reviewer` and `apply_policy`.
unfoldable pub review_and_settle :
    Config → CycleInput → CampaignState → Outcome (CampaignState × Option Settlement)
review_and_settle cfg input state =
    let (answer, state') = degrade "reviewer" no_review input.reviewer state in
    apply_policy cfg answer input.settles state' >>= λ p. ok (p.0, some p.1)

-- The edges from `merge_analysis` on: `skip_candidate` where the analysis stopped the campaign.
-- One re-ask is the most that a cycle makes, so two asks are the fuel.
unfoldable pub after_merge :
    Config → CycleInput → CampaignState × Route → Run (CampaignState × Option Settlement)
after_merge cfg input (state, finish) = some (ok (state, none))
after_merge cfg input (state, _) =
    follow (ask_loop 2 input.asks state) λ asked. some (review_and_settle cfg input asked)

-- The subgraph `campaign_cycle`, with the settlement that it makes, if any.
unfoldable pub cycle : Config → CycleInput → CampaignState → Run (CampaignState × Option Settlement)
cycle cfg input state =
    let (answer, state') = degrade role_analyst no_analysis input.analyst state in
    follow (some (merge_analysis cfg input.excerpts answer state')) (after_merge cfg input)

abbrev pub journal_with : Option Settlement → List Settlement → List Settlement
journal_with none rest = rest
journal_with (some s) rest = s ∷ rest

-- The routes out of `route_campaign`: the next cycle, or the end.
unfoldable pub route_cycle :
    (CampaignState → Run (CampaignState × List Settlement))
    → List Settlement
    → CampaignState × Route
    → Run (CampaignState × List Settlement)
route_cycle next journal (state, go_on) = next state
route_cycle next journal (state, _) = some (ok (state, journal))

-- The loop of the outer graph between `campaign_cycle` and `route_campaign`: the state it ends in and
-- the settlements, the last one first.
unfoldable pub cycles :
    ℕ
    → Config
    → (ℕ → CycleInput)
    → CampaignState
    → List Settlement
    → Run (CampaignState × List Settlement)
unfolding route_cycle
cycles zero cfg inputs state journal = none
cycles (suc fuel) cfg inputs state journal = follow (cycle cfg (inputs 0) state) λ p.
    let journal' = journal_with p.1 journal in
    route_cycle (λ state'. cycles fuel cfg (λ n. inputs (suc n)) state' journal') journal'
      (route cfg p.0)

-- The outer graph behind `initialize_campaign`.
unfoldable pub run_from :
    ℕ
    → Config
    → Outcome (List String)
    → (ℕ → CycleInput)
    → (CampaignResult → Outcome (Unit {0}))
    → CampaignState × Route
    → Run CampaignResult
run_from fuel cfg evidence inputs finished (state, go_on) =
    follow (some (discover evidence state))
      λ ready. follow (cycles fuel cfg inputs ready []) λ end. some (finalize finished end.0)
run_from fuel cfg evidence inputs finished (state, _) = some (finalize finished state)

-- The outer graph from `initialize_campaign` to `finalize_campaign`.
unfoldable pub campaign :
    ℕ
    → Config
    → Outcome (Unit {0})
    → Outcome (List String)
    → (ℕ → CycleInput)
    → (CampaignResult → Outcome (Unit {0}))
    → CampaignRequest
    → Run CampaignResult
campaign fuel cfg started evidence inputs finished request =
    follow (some (initialize cfg started request)) (run_from fuel cfg evidence inputs finished)
