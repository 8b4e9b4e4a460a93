-- ===== src/Orchestrator/Laws/Route.antt =====
-- internal/orchestrator/termination.go and `route` of orchestrator.go: what ending and going on say.
use gotorque.Prelude.{
  String, ℕ, ◌<◌, String, true, false, Option, none, some, ◌≡◌, refl, arith, str_eq, leb,
  str_eq-append_nil, Bool-cases, inl, inr, sym,
}
use gotorque.Orchestrator.Types.{Config, CampaignState}
use gotorque.Orchestrator.Termination.{
  Ending, ended, stop_reason, stop_reason_max_candidates, ended_at_bound, ended_after_cycle,
  ended_with, provider_failure, stop_reason_provider_failure, outage_limit,
}
use gotorque.Orchestrator.Nodes.{
  start_with, route_with, Route, go_on, finish, route, count_outage, initialize_state,
}
use gotorque.Orchestrator.Laws.Frame.{Keeps, Keeps-trans}
use gotorque.Orchestrator.Laws.Cycle.{Reasoned}

ended_at_bound-Reasoned : (cfg : Config) (s : CampaignState) → Reasoned (ended_at_bound cfg s)
unfolding ended_at_bound
ended_at_bound-Reasoned cfg s = elim (Bool-cases (str_eq (stop_reason cfg s) "")) [
  | inl e ↦ rw e tt
  | inr e ↦ rw e e
]

ended_with-Reasoned :
    (failure : Option String) (cfg : Config) (s : CampaignState)
    → Reasoned (ended_with failure cfg s)
unfolding ended_with
ended_with-Reasoned none cfg s = ended_at_bound-Reasoned cfg s
ended_with-Reasoned (some failure) cfg s = elim (Bool-cases (leb outage_limit s.outage_cycles)) [
  | inl out ↦ rw out (str_eq-append_nil stop_reason_provider_failure failure refl)
  | inr still ↦ rw still (ended_at_bound-Reasoned cfg s)
]

ended_at_bound-full :
    (cfg : Config) (s : CampaignState)
    → leb cfg.max_candidates s.candidates_tried ≡ true
    → ended_at_bound cfg s ≡ some (record { reason = stop_reason_max_candidates; failure = "" })
unfolding ended_at_bound stop_reason
ended_at_bound-full cfg s e = rw e refl

lt_of_leb : (m n : ℕ) → leb m n ≡ false → n < m
lt_of_leb m n e = ground arith

-- A campaign that goes on at a bound check has a candidate left.
ended_at_bound-left :
    (cfg : Config) (s : CampaignState)
    → ended_at_bound cfg s ≡ none
    → s.candidates_tried < cfg.max_candidates
ended_at_bound-left cfg s h = elim (Bool-cases (leb cfg.max_candidates s.candidates_tried)) [
  | inl e ↦ let full = ended_at_bound-full cfg s e in cc
  | inr e ↦ lt_of_leb cfg.max_candidates s.candidates_tried e
]

ended_with-bound :
    (failure : Option String) (cfg : Config) (s : CampaignState)
    → ended_with failure cfg s ≡ none
    → ended_at_bound cfg s ≡ none
unfolding ended_with
ended_with-bound none cfg s h = h
ended_with-bound (some failure) cfg s h = ground arith

pub count_outage-Keeps : (s : CampaignState) → Keeps s (count_outage s)
unfolding count_outage
count_outage-Keeps s = ground arith

count_outage-stop_reason : (s : CampaignState) → (count_outage s).stop_reason ≡ s.stop_reason
unfolding count_outage
count_outage-stop_reason s = ground arith

-- What `route` does: it keeps the counters, and it ends with a reason or goes on with a candidate
-- left and nothing recorded against a role.
pub data Routed (cfg : Config) (s : CampaignState) (p : CampaignState × Route) : Type 0 where
  ends : p.1 ≡ finish → Keeps s p.0 → str_eq p.0.stop_reason "" ≡ false → Routed cfg s p
  continues :
      p.1 ≡ go_on
      → Keeps s p.0
      → str_eq p.0.stop_reason "" ≡ true
      → s.candidates_tried < cfg.max_candidates
      → Routed cfg s p

route_with-Routed :
    (cfg : Config) (end : Option Ending) (s : CampaignState)
    → Reasoned end
    → (end ≡ none → s.candidates_tried < cfg.max_candidates)
    → str_eq s.stop_reason "" ≡ true
    → Routed cfg s (route_with end s)
unfolding route_with
route_with-Routed cfg none s r left h = continues refl (ground arith) h (left refl)
route_with-Routed cfg (some end) s r left h = ends refl (ground arith) r

start_with-Routed :
    (cfg : Config) (end : Option Ending) (s : CampaignState)
    → Reasoned end
    → (end ≡ none → s.candidates_tried < cfg.max_candidates)
    → str_eq s.stop_reason "" ≡ true
    → Routed cfg s (start_with end s)
unfolding start_with
start_with-Routed cfg none s r left h = continues refl (ground arith) h (left refl)
start_with-Routed cfg (some end) s r left h = ends refl (ground arith) r

Routed-from :
    {cfg : Config} {s t : CampaignState} {p : CampaignState × Route}
    → Keeps s t
    → Routed cfg t p
    → Routed cfg s p
Routed-from k (ends e kept reason) = ends e (Keeps-trans k kept) reason
Routed-from k (continues e kept still left) =
    continues e (Keeps-trans k kept) still (rw (sym k.candidates_tried) left)

pub route-Routed : (cfg : Config) (s : CampaignState) → Routed cfg s (route cfg s)
unfolding route ended ended_after_cycle
route-Routed cfg s = elim (Bool-cases (str_eq s.stop_reason "")) [
  | inr e ↦ rw e (ends refl (ground arith) e)
  | inl e ↦
      let t = count_outage s in
      rw e (
        Routed-from (count_outage-Keeps s) (
          route_with-Routed cfg (ended_with (provider_failure t) cfg t) t
            (ended_with-Reasoned (provider_failure t) cfg t)
            (λ h. ended_at_bound-left cfg t (ended_with-bound (provider_failure t) cfg t h))
            (rw (count_outage-stop_reason s) e)))
]

pub initialize_state-Routed :
    (cfg : Config) (s : CampaignState)
    → str_eq s.stop_reason "" ≡ true
    → Routed cfg s (initialize_state cfg s)
unfolding initialize_state ended
initialize_state-Routed cfg s h =
    start_with-Routed cfg (ended_at_bound cfg s) s (ended_at_bound-Reasoned cfg s)
      (ended_at_bound-left cfg s) h

-- A campaign that was stopped in its cycle is left as it is.
pub route-stopped :
    (cfg : Config) (s : CampaignState) → str_eq s.stop_reason "" ≡ false → route cfg s ≡ (s, finish)
unfolding route
route-stopped cfg s h = rw h refl
