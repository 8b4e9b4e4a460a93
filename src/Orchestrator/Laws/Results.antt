-- ===== src/Orchestrator/Laws/Results.antt =====
-- internal/orchestrator/orchestrator.go: what a whole campaign comes to, and what a resumed one
-- starts from.
use mathlib.Core.Path.{subst}
use gotorque.Prelude.{
  String, ℕ, ◌<◌, ◌≤◌, max, false, List, [], ◌≡◌, refl, sym, ap, ◌∙◌, arith, str_eq, some,
}
use gotorque.Outcome.{
  Outcome, follow, ok, err, Ensures, Ensures-follow, Ensures-map, Yields, Yields-bind, Yields-any,
}
use gotorque.Orchestrator.Types.{Config, CampaignState, CampaignRequest, CampaignResult}
use gotorque.Orchestrator.Ledger.{tallies_of}
use gotorque.Orchestrator.Nodes.{
  Route, go_on, finish, reask, Settlement, normalize_request, initialize, initial_state, discover,
  finalize, separate_bound,
}
use gotorque.Orchestrator.Campaign.{CycleInput, cycles, campaign, run_from}
use gotorque.Orchestrator.Laws.Frame.{Keeps, Keeps-trans}
use gotorque.Orchestrator.Laws.Ledger.{counters, initial_state-IsTallied}
use gotorque.Orchestrator.Laws.Route.{Routed, ends, continues}
use gotorque.Orchestrator.Laws.Total.{Returns}
use gotorque.Orchestrator.Laws.Runs.{RunEnd, cycles-RunEnd}
use gotorque.Orchestrator.Laws.Fuel.{Started, initialize-Started, campaign-Returns}

-- A campaign whose history is handed to a new one as its recorded candidates: the new campaign
-- starts from the counters that the old one ended with, however the cycles of the old one went.
pub resumes-counters :
    (fuel : ℕ) (cfg : Config) (inputs : ℕ → CycleInput) (req resumed : CampaignRequest)
    → Ensures
        (λ q.
          counters
            (initial_state cfg (record resumed { recorded_candidates = q.0.prior_candidates }))
          ≡ counters q.0)
        (cycles fuel cfg inputs (initial_state cfg req) [])
unfolding initial_state
resumes-counters fuel cfg inputs req resumed =
    Ensures-map (λ q end. end.tallied (initial_state-IsTallied cfg req))
      (cycles fuel cfg inputs (initial_state cfg req) [])
      (cycles-RunEnd fuel cfg inputs (initial_state cfg req) [])

-- The result of a campaign: its own id, no more candidates than the bound or the history have, and
-- the reason why it stopped.
pub record Bounded (cfg : Config) (req : CampaignRequest) (r : CampaignResult) : Type 0 where
  pub same_id : r.campaign_id ≡ req.campaign_id
  pub bounded :
      r.candidates_tried
      ≤ max cfg.max_candidates (tallies_of req.recorded_candidates (separate_bound cfg)).tried
  pub reasoned : str_eq r.stop_reason "" ≡ false

-- The same of the state that the result is read from.
record Final (cfg : Config) (req : CampaignRequest) (s : CampaignState) : Type 0 where
  same_request : s.request ≡ req
  bounded :
      s.candidates_tried
      ≤ max cfg.max_candidates (tallies_of req.recorded_candidates (separate_bound cfg)).tried
  reasoned : str_eq s.stop_reason "" ≡ false

finalize-Bounded :
    {cfg : Config} {req : CampaignRequest} (finished : CampaignResult → Outcome (Unit {0}))
    (s : CampaignState)
    → Final cfg req s
    → Yields (Bounded cfg req) (finalize finished s)
unfolding finalize
finalize-Bounded {cfg} {req} finished s f =
    let result : CampaignResult = record {
      campaign_id = s.request.campaign_id;
      candidates_tried = s.candidates_tried;
      accepted_candidates = s.accepted_candidates;
      final_evaluation = s.evaluation;
      stop_reason = s.stop_reason;
      provider_failure = s.provider_failure;
    } in
    Yields-bind (λ _. Unit) (Bounded cfg req) (finished result) (λ _. ok result)
      (Yields-any (finished result))
      λ _ _. record {
        same_id = ap (λ (q : CampaignRequest). q.campaign_id) f.same_request;
        bounded = f.bounded;
        reasoned = f.reasoned;
      }

discover-Keeps :
    (evidence : Outcome (List String)) (s : CampaignState) → Yields (Keeps s) (discover evidence s)
unfolding discover
discover-Keeps (ok e) s = ground arith
discover-Keeps (err x) s = tt

initial_state-request :
    (cfg : Config) (req : CampaignRequest)
    → ((initial_state cfg req).request ≡ req)
      × ((initial_state cfg req).candidates_tried
          ≡ (tallies_of req.recorded_candidates (separate_bound cfg)).tried)
unfolding initial_state
initial_state-request cfg req = (refl, refl)

stopped-Final :
    (cfg : Config) (req : CampaignRequest) (t : CampaignState)
    → Keeps (initial_state cfg req) t
    → str_eq t.stop_reason "" ≡ false
    → Final cfg req t
stopped-Final cfg req t kept reason =
    let (same, tried) = initial_state-request cfg req in
    record {
      same_request = kept.request ∙ same;
      bounded = omega (arith, kept.candidates_tried, tried);
      reasoned = reason;
    }

run-Final :
    (cfg : Config) (req : CampaignRequest) (t : CampaignState) (q : CampaignState × List Settlement)
    → Keeps (initial_state cfg req) t
    → t.candidates_tried < cfg.max_candidates
    → RunEnd cfg t [] q
    → Final cfg req q.0
run-Final cfg req t q kept left end =
    let (same, tried) = initial_state-request cfg req in
    let bound = end.bounded left in
    record {
      same_request = end.request ∙ kept.request ∙ same;
      bounded = omega (arith, bound);
      reasoned = end.reasoned;
    }

cycles-Bounded :
    (fuel : ℕ) (cfg : Config) (inputs : ℕ → CycleInput)
    (finished : CampaignResult → Outcome (Unit {0})) (req : CampaignRequest) (t : CampaignState)
    → Keeps (initial_state cfg req) t
    → t.candidates_tried < cfg.max_candidates
    → Ensures
        (Bounded cfg req)
        (follow (cycles fuel cfg inputs t []) λ end. some (finalize finished end.0))
cycles-Bounded fuel cfg inputs finished req t kept left =
    Ensures-follow (RunEnd cfg t []) (Bounded cfg req) (cycles fuel cfg inputs t []) _
      (cycles-RunEnd fuel cfg inputs t [])
      λ q end. finalize-Bounded finished q.0 (run-Final cfg req t q kept left end)

run_from-Bounded :
    (fuel : ℕ) (cfg : Config) (evidence : Outcome (List String)) (inputs : ℕ → CycleInput)
    (finished : CampaignResult → Outcome (Unit {0})) (req : CampaignRequest)
    (p : CampaignState × Route)
    → Routed cfg (initial_state cfg req) p
    → Ensures (Bounded cfg req) (run_from fuel cfg evidence inputs finished p)
unfolding run_from
run_from-Bounded fuel cfg evidence inputs finished req (t, go_on) (ends e kept reason) = cc
run_from-Bounded fuel cfg evidence inputs finished req (t, go_on) (continues e kept still left) =
    Ensures-follow (Keeps t) (Bounded cfg req) (some (discover evidence t)) _
      (discover-Keeps evidence t)
      λ u same.
        cycles-Bounded fuel cfg inputs finished req u (Keeps-trans kept same)
          (omega (arith, same.candidates_tried, kept.candidates_tried, left))
run_from-Bounded fuel cfg evidence inputs finished req (t, finish) (ends e kept reason) =
    finalize-Bounded finished t (stopped-Final cfg req t kept reason)
run_from-Bounded fuel cfg evidence inputs finished req (t, finish) (continues e kept still left) =
    cc
run_from-Bounded fuel cfg evidence inputs finished req (t, reask) (ends e kept reason) = cc
run_from-Bounded fuel cfg evidence inputs finished req (t, reask) (continues e kept still left) = cc

-- The defaults of a request leave its id and its history alone.
abbrev SameHistory : CampaignRequest → CampaignRequest → Type 0
SameHistory req normalized =
    (normalized.campaign_id ≡ req.campaign_id)
    × (normalized.recorded_candidates ≡ req.recorded_candidates)

normalize_request-SameHistory :
    (req : CampaignRequest) → Yields (SameHistory req) (normalize_request req)
unfolding normalize_request
normalize_request-SameHistory req = ground arith

Bounded-from :
    {cfg : Config} {req normalized : CampaignRequest} {r : CampaignResult}
    → SameHistory req normalized
    → Bounded cfg normalized r
    → Bounded cfg req r
Bounded-from {cfg} (id, history) b = record {
  same_id = b.same_id ∙ id;
  bounded = rw (sym history) b.bounded;
  reasoned = b.reasoned;
}

campaign-Bounded :
    (fuel : ℕ) (cfg : Config) (started : Outcome (Unit {0})) (evidence : Outcome (List String))
    (inputs : ℕ → CycleInput) (finished : CampaignResult → Outcome (Unit {0}))
    (request : CampaignRequest)
    → Ensures (Bounded cfg request) (campaign fuel cfg started evidence inputs finished request)
unfolding campaign
campaign-Bounded fuel cfg started evidence inputs finished request =
    Ensures-follow (Started cfg request) (Bounded cfg request)
      (some (initialize cfg started request)) (run_from fuel cfg evidence inputs finished)
      (initialize-Started cfg started request)
      λ p start.
        let same : SameHistory request start.normalized =
          subst (Yields (SameHistory request)) start.accepted
            (normalize_request-SameHistory request) in
        Ensures-map (λ r b. Bounded-from same b) (run_from fuel cfg evidence inputs finished p)
          (run_from-Bounded fuel cfg evidence inputs finished start.normalized p start.routed)

-- A campaign with fuel for the candidates of its configuration comes to an end, whatever the
-- request, the roles and the bench answer; and where that end is a result, the result has the id of
-- the request, counts no more candidates than the larger of the bound and the attempts recorded
-- before, and gives a reason why it stopped.
pub campaign-ends :
    (fuel : ℕ) (cfg : Config) (started : Outcome (Unit {0})) (evidence : Outcome (List String))
    (inputs : ℕ → CycleInput) (finished : CampaignResult → Outcome (Unit {0}))
    (request : CampaignRequest)
    → cfg.max_candidates ≤ fuel
    → Returns (campaign fuel cfg started evidence inputs finished request)
      × Ensures (Bounded cfg request) (campaign fuel cfg started evidence inputs finished request)
campaign-ends fuel cfg started evidence inputs finished request enough = (
  campaign-Returns fuel cfg started evidence inputs finished request enough,
  campaign-Bounded fuel cfg started evidence inputs finished request,
)
