-- ===== src/Orchestrator/Laws/Cycle.antt =====
-- internal/orchestrator/orchestrator.go: the two ways in which a cycle ends.
use gotorque.Prelude.{
  false, Option, none, some, List, ◌≡◌, refl, ap, arith, str_eq, str_eq-append_nil, Bool-cases, inl,
  inr, is_empty,
}
use gotorque.Outcome.{
  Outcome, ok, err, follow, Yields, Yields-bind, Yields-any, Yields-map, Ensures, Ensures-follow,
  Ensures-map,
}
use gotorque.Orchestrator.Types.{
  Config, CampaignState, Target, AnalystResult, SourceExcerpt, no_review, no_analysis,
  ReviewerResult,
}
use Prim.Native.String.{◌++◌}
use gotorque.Orchestrator.Termination.{
  Ending, role_analyst, ended, ended_without, ended_after_analysis, role_failure,
  stop_reason_analysis_unavailable,
}
use gotorque.Orchestrator.Nodes.{
  Route, finish, Settlement, degrade, analysed, stop_with, stop_after_analysis, merge_analysis,
  apply_policy, counted, settlement_of, separate_bound,
}
use gotorque.Orchestrator.Campaign.{CycleInput, ask_loop, review_and_settle, after_merge, cycle}
use gotorque.Orchestrator.Laws.Frame.{
  Keeps-trans, degrade-Keeps, analysed-Keeps, stop-Keeps, ask_loop-Keeps, Keeps,
}

-- How a cycle ends: with nothing settled and the campaign stopped by its analysis, or with the
-- verdict of one candidate counted and settled.
pub data CycleEnd (cfg : Config) (s : CampaignState) (p : CampaignState × Option Settlement)
    : Type 0 where
  skipped : p.1 ≡ none → Keeps s p.0 → str_eq p.0.stop_reason "" ≡ false → CycleEnd cfg s p
  settled :
      (judged : CampaignState)
      → Keeps s judged
      → p.0 ≡ counted judged (separate_bound cfg)
      → p.1 ≡ some (settlement_of judged p.0)
      → CycleEnd cfg s p

-- A verdict that was settled: the state it was counted in keeps what the cycle began with.
abbrev Settled : Config → CampaignState → CampaignState × Settlement → Type 0
Settled cfg s q =
    (judged : CampaignState) × Keeps s judged
    × (q.0 ≡ counted judged (separate_bound cfg))
    × (q.1 ≡ settlement_of judged q.0)

apply-Settled :
    (cfg : Config) (answer : Outcome ReviewerResult) (settles : Settlement → Outcome (Unit {0}))
    (s : CampaignState)
    → Yields (Settled cfg s) (apply_policy cfg answer settles s)
unfolding apply_policy
apply-Settled cfg (err e) settles s = tt
apply-Settled cfg (ok review) settles s =
    let reviewed = record s { review = review } in
    let settled_state = counted reviewed (separate_bound cfg) in
    let settlement = settlement_of reviewed settled_state in
    Yields-bind (λ _. Unit) (Settled cfg s) (settles settlement)
      (λ _. ok (settled_state, settlement)) (Yields-any (settles settlement))
      λ _ _. (reviewed, ground arith, refl, refl)

review-CycleEnd :
    (cfg : Config) (input : CycleInput) (s : CampaignState)
    → Yields (CycleEnd cfg s) (review_and_settle cfg input s)
unfolding review_and_settle
review-CycleEnd cfg input s =
    let (answer, s') = degrade "reviewer" no_review input.reviewer s in
    let kept = degrade-Keeps "reviewer" no_review input.reviewer s in
    Yields-bind (Settled cfg s') (CycleEnd cfg s) (apply_policy cfg answer input.settles s') _
      (apply-Settled cfg answer input.settles s')
      λ q (judged, k, c, e). settled judged (Keeps-trans kept k) c (ap some e)

CycleEnd-from :
    {cfg : Config} {s t : CampaignState} {p : CampaignState × Option Settlement}
    → Keeps s t
    → CycleEnd cfg t p
    → CycleEnd cfg s p
CycleEnd-from k (skipped none_settled kept stopped) =
    skipped none_settled (Keeps-trans k kept) stopped
CycleEnd-from k (settled judged kept c e) = settled judged (Keeps-trans k kept) c e

-- An ending comes with a reason.
abbrev pub Reasoned : Option Ending → Type 0
Reasoned none = Unit
Reasoned (some end) = str_eq end.reason "" ≡ false

ended_without-Reasoned :
    (target : Option Target) (cfg : Config) (s : CampaignState)
    → Reasoned (ended_without target cfg s)
unfolding ended_without
ended_without-Reasoned (some t) cfg s = tt
ended_without-Reasoned none cfg s =
    let cause = role_failure s.cycle_failures role_analyst in
    let reason =
      str_eq-append_nil stop_reason_analysis_unavailable (role_analyst ++ (": " ++ cause)) refl in
    elim (Bool-cases cfg.stop_when_ranking_exhausted) [
      | inr e ↦ rw e tt
      | inl e ↦ rw e (elim (Bool-cases (is_empty s.analysis.targets)) [
        | inr full ↦ rw full refl
        | inl empty ↦ rw empty (elim (Bool-cases (str_eq cause "")) [
          | inl no_cause ↦ rw no_cause refl
          | inr found ↦ rw found reason
        ])
      ])
    ]

stop_with-reason :
    (end : Option Ending) (s : CampaignState)
    → Reasoned end
    → (stop_with end s).1 ≡ finish
    → str_eq (stop_with end s).0.stop_reason "" ≡ false
unfolding stop_with
stop_with-reason none s r h = cc
stop_with-reason (some end) s r h = r

-- The analysis stops a campaign with a reason.
stop_after_analysis-reason :
    (cfg : Config) (s : CampaignState)
    → (stop_after_analysis cfg s).1 ≡ finish
    → str_eq (stop_after_analysis cfg s).0.stop_reason "" ≡ false
unfolding stop_after_analysis ended ended_after_analysis
stop_after_analysis-reason cfg s =
    stop_with-reason (ended_without s.target cfg s) s (ended_without-Reasoned s.target cfg s)

-- What `merge_analysis` hands on: the state keeps, and it has a reason where it is to finish.
abbrev Merged : CampaignState → CampaignState × Route → Type 0
Merged s p = Keeps s p.0 × (p.1 ≡ finish → str_eq p.0.stop_reason "" ≡ false)

merge-Merged :
    (cfg : Config) (excerpts : AnalystResult → Outcome (List SourceExcerpt))
    (answer : Outcome AnalystResult) (s : CampaignState)
    → Yields (Merged s) (merge_analysis cfg excerpts answer s)
unfolding merge_analysis
merge-Merged cfg excerpts (ok r) s =
    let planned = analysed excerpts r s in
    (
      Keeps-trans (analysed-Keeps excerpts r s) (stop-Keeps cfg planned),
      stop_after_analysis-reason cfg planned,
    )
merge-Merged cfg excerpts (err e) s = tt

ask_and_review-CycleEnd :
    (cfg : Config) (input : CycleInput) (s : CampaignState)
    → Ensures
        (CycleEnd cfg s)
        (follow (ask_loop 2 input.asks s) λ asked. some (review_and_settle cfg input asked))
ask_and_review-CycleEnd cfg input s =
    Ensures-follow (Keeps s) (CycleEnd cfg s) (ask_loop 2 input.asks s) _
      (ask_loop-Keeps 2 input.asks s)
      λ asked kept.
        Yields-map (λ p e. CycleEnd-from kept e) (review_and_settle cfg input asked)
          (review-CycleEnd cfg input asked)

after_merge-CycleEnd :
    (cfg : Config) (input : CycleInput) (s : CampaignState) (p : CampaignState × Route)
    → Merged s p
    → Ensures (CycleEnd cfg s) (after_merge cfg input p)
unfolding after_merge
after_merge-CycleEnd cfg input s (t, finish) (kept, stopped) = skipped refl kept (stopped refl)
after_merge-CycleEnd cfg input s (t, _) (kept, stopped) =
    Ensures-map {P = CycleEnd cfg t} {Q = CycleEnd cfg s} (λ q e. CycleEnd-from kept e)
      (follow (ask_loop 2 input.asks t) (λ asked. some (review_and_settle cfg input asked)))
      (ask_and_review-CycleEnd cfg input t)

-- Every cycle that ends without an error ends in one of the two ways.
pub cycle-CycleEnd :
    (cfg : Config) (input : CycleInput) (s : CampaignState)
    → Ensures (CycleEnd cfg s) (cycle cfg input s)
unfolding cycle
cycle-CycleEnd cfg input s =
    let (answer, s') = degrade role_analyst no_analysis input.analyst s in
    let kept = degrade-Keeps role_analyst no_analysis input.analyst s in
    Ensures-follow (Merged s') (CycleEnd cfg s) (some (merge_analysis cfg input.excerpts answer s'))
      (after_merge cfg input) (merge-Merged cfg input.excerpts answer s')
      λ p merged.
        Ensures-map (λ q e. CycleEnd-from kept e) (after_merge cfg input p)
          (after_merge-CycleEnd cfg input s' p merged)
