-- ===== src/Orchestrator/Laws/Fuel.antt =====
-- internal/orchestrator/orchestrator.go: the fuel of a campaign.
use gotorque.Prelude.{
  String, ℕ, zero, suc, ◌+◌, ◌<◌, ◌≤◌, Option, none, some, List, [], ◌≡◌, refl, ap, arith,
}
use gotorque.Outcome.{Outcome, Run, follow, ok, err, Ensures, Yields, ◌>>=◌}
use gotorque.Orchestrator.Types.{Config, CampaignState, CampaignRequest, CampaignResult}
use gotorque.Orchestrator.Nodes.{
  Route, go_on, finish, reask, Settlement, route, initialize, normalize_request, initial_state,
  initialize_state, discover,
}
use gotorque.Orchestrator.Campaign.{
  CycleInput, cycle, journal_with, route_cycle, cycles, campaign, run_from,
}
use gotorque.Orchestrator.Laws.Cycle.{CycleEnd, skipped, settled, cycle-CycleEnd}
use gotorque.Orchestrator.Laws.Route.{
  Routed, ends, continues, route-Routed, route-stopped, initialize_state-Routed,
}
use gotorque.Orchestrator.Laws.Total.{Returns, cycle-Returns, follow-Returns}
use gotorque.Orchestrator.Laws.Runs.{settlements, CycleEnd-Step}

follow-Returns-Ensures :
    {A B : Type 0} (P : A → Type 0) (m : Run A) (f : A → Run B)
    → Returns m
    → Ensures P m
    → ((a : A) → P a → Returns (f a))
    → Returns (follow m f)
follow-Returns-Ensures P none f h e k = h
follow-Returns-Ensures P (some (ok a)) f h e k = k a e
follow-Returns-Ensures P (some (err x)) f h e k = tt

route_cycle-Returns :
    (cfg : Config) (u : CampaignState) (journal : List Settlement)
    (next : CampaignState → Run (CampaignState × List Settlement)) (r : CampaignState × Route)
    → Routed cfg u r
    → ((t : CampaignState)
        → t.candidates_tried ≡ u.candidates_tried
        → u.candidates_tried < cfg.max_candidates
        → Returns (next t))
    → Returns (route_cycle next journal r)
unfolding route_cycle
route_cycle-Returns cfg u journal next (t, go_on) (continues e kept still left) k =
    k t kept.candidates_tried left
route_cycle-Returns cfg u journal next (t, go_on) (ends e kept reason) k = cc
route_cycle-Returns cfg u journal next (t, finish) r k = tt
route_cycle-Returns cfg u journal next (t, reask) r k = tt

-- The routing behind a cycle, where the next run returns from a state with one more candidate.
routed-Returns :
    (cfg : Config) (s : CampaignState) (p : CampaignState × Option Settlement)
    (journal : List Settlement) (next : CampaignState → Run (CampaignState × List Settlement))
    → CycleEnd cfg s p
    → ((t : CampaignState)
        → t.candidates_tried ≡ s.candidates_tried + 1
        → t.candidates_tried < cfg.max_candidates
        → Returns (next t))
    → Returns (route_cycle next journal (route cfg p.0))
unfolding route_cycle
routed-Returns cfg s p journal next (skipped o kept stopped) k =
    rw (route-stopped cfg p.0 stopped) tt
routed-Returns cfg s p journal next (settled judged kept c o) k =
    let st = CycleEnd-Step {cfg = cfg} (settled judged kept c o) in
    route_cycle-Returns cfg p.0 journal next (route cfg p.0) (route-Routed cfg p.0) λ t same left.
      let one = ap settlements o in
      k t (omega (arith, same, st.tried, one)) (omega (arith, same, left))

-- Fuel for the candidates that are left is enough for a run of cycles.
pub cycles-Returns :
    (fuel : ℕ) (cfg : Config) (inputs : ℕ → CycleInput) (s : CampaignState)
    (journal : List Settlement)
    → s.candidates_tried < cfg.max_candidates
    → cfg.max_candidates ≤ s.candidates_tried + fuel
    → Returns (cycles fuel cfg inputs s journal)
unfolding cycles
cycles-Returns zero cfg inputs s journal left enough = absurd (omega arith)
cycles-Returns (suc fuel) cfg inputs s journal left enough =
    follow-Returns-Ensures (CycleEnd cfg s) (cycle cfg (inputs 0) s) _
      (cycle-Returns cfg (inputs 0) s) (cycle-CycleEnd cfg (inputs 0) s)
      λ p end.
        let journal' = journal_with p.1 journal in
        routed-Returns cfg s p journal' _ end λ t one more.
          cycles-Returns fuel cfg (λ n. inputs (suc n)) t journal' more (omega (arith, one, enough))

-- What `initialize` hands on: the state of a request, routed by its bounds.
pub record Started (cfg : Config) (request : CampaignRequest) (p : CampaignState × Route)
    : Type 0 where
  pub normalized : CampaignRequest
  pub accepted : normalize_request request ≡ ok normalized
  pub routed : Routed cfg (initial_state cfg normalized) p

initial_state-stop_reason :
    (cfg : Config) (req : CampaignRequest) → (initial_state cfg req).stop_reason ≡ ""
unfolding initial_state
initial_state-stop_reason cfg req = refl

start-Started :
    (cfg : Config) (started : Outcome (Unit {0})) (request : CampaignRequest)
    (normalized : Outcome CampaignRequest)
    → normalize_request request ≡ normalized
    → Yields
        (Started cfg request)
        (normalized >>= λ req. started >>= λ _. ok (initialize_state cfg (initial_state cfg req)))
start-Started cfg started request (err x) e = tt
start-Started cfg (err x) request (ok req) e = tt
start-Started cfg (ok u) request (ok req) e = record {
  normalized = req;
  accepted = e;
  routed =
      initialize_state-Routed cfg (initial_state cfg req)
        (rw (initial_state-stop_reason cfg req) refl);
}

pub initialize-Started :
    (cfg : Config) (started : Outcome (Unit {0})) (request : CampaignRequest)
    → Yields (Started cfg request) (initialize cfg started request)
unfolding initialize
initialize-Started cfg started request =
    start-Started cfg started request (normalize_request request) refl

discover-tried :
    (evidence : Outcome (List String)) (s : CampaignState)
    → Yields (λ t. t.candidates_tried ≡ s.candidates_tried) (discover evidence s)
unfolding discover
discover-tried (ok e) s = refl
discover-tried (err x) s = tt

run_from-Returns :
    (fuel : ℕ) (cfg : Config) (evidence : Outcome (List String)) (inputs : ℕ → CycleInput)
    (finished : CampaignResult → Outcome (Unit {0})) (s : CampaignState) (p : CampaignState × Route)
    → cfg.max_candidates ≤ fuel
    → Routed cfg s p
    → Returns (run_from fuel cfg evidence inputs finished p)
unfolding run_from
run_from-Returns fuel cfg evidence inputs finished s (t, finish) enough r = tt
run_from-Returns fuel cfg evidence inputs finished s (t, reask) enough r = tt
run_from-Returns fuel cfg evidence inputs finished s (t, go_on) enough (ends e kept reason) = cc
run_from-Returns fuel cfg evidence inputs finished s (t, go_on) enough
      (continues e kept still left) =
    follow-Returns-Ensures (λ u. u.candidates_tried ≡ t.candidates_tried)
      (some (discover evidence t)) _ tt (discover-tried evidence t)
      λ u same.
        follow-Returns (cycles fuel cfg inputs u []) _
          (cycles-Returns fuel cfg inputs u [] (omega (arith, same, kept.candidates_tried, left))
            (omega (arith, enough)))
          λ end. tt

-- Fuel for the candidates of the configuration is enough for a campaign: it returns a result or an
-- error, whatever the request, the roles and the bench are.
pub campaign-Returns :
    (fuel : ℕ) (cfg : Config) (started : Outcome (Unit {0})) (evidence : Outcome (List String))
    (inputs : ℕ → CycleInput) (finished : CampaignResult → Outcome (Unit {0}))
    (request : CampaignRequest)
    → cfg.max_candidates ≤ fuel
    → Returns (campaign fuel cfg started evidence inputs finished request)
unfolding campaign
campaign-Returns fuel cfg started evidence inputs finished request enough =
    follow-Returns-Ensures (Started cfg request) (some (initialize cfg started request))
      (run_from fuel cfg evidence inputs finished) tt (initialize-Started cfg started request)
      λ p start.
        run_from-Returns fuel cfg evidence inputs finished (initial_state cfg start.normalized) p
          enough start.routed
