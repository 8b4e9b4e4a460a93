-- ===== src/Orchestrator/Laws/Runs.antt =====
-- internal/orchestrator/orchestrator.go: what the loop of cycles does, from any state and whatever the
-- roles and the bench answer.
use gotorque.Prelude.{
  ℕ, zero, suc, ◌+◌, ◌<◌, ◌≤◌, false, Option, none, some, List, ◌≡◌, refl, ap, ◌∙◌, arith, str_eq,
  length, Bool,
}
use gotorque.Outcome.{Run, Ensures, Ensures-follow, Ensures-map}
use gotorque.Orchestrator.Types.{Config, CampaignState}
use gotorque.Orchestrator.Nodes.{
  Route, go_on, finish, reask, Settlement, counted, separate_bound, route,
}
use gotorque.Orchestrator.Campaign.{CycleInput, cycle, journal_with, route_cycle, cycles}
use gotorque.Orchestrator.Laws.Frame.{Keeps}
use gotorque.Orchestrator.Laws.Cycle.{CycleEnd, skipped, settled, cycle-CycleEnd}
use gotorque.Orchestrator.Laws.Ledger.{IsTallied, counted-IsTallied}
use gotorque.Orchestrator.Laws.Route.{Routed, ends, continues, route-Routed}

Keeps-IsTallied :
    (separate : Bool) {s t : CampaignState}
    → Keeps s t
    → IsTallied separate s
    → IsTallied separate t
Keeps-IsTallied separate k h = ground (arith, k, h)

counted-tried :
    (s : CampaignState) (separate : Bool)
    → (counted s separate).candidates_tried ≡ s.candidates_tried + 1
unfolding counted
counted-tried s separate = refl

counted-request : (s : CampaignState) (separate : Bool) → (counted s separate).request ≡ s.request
unfolding counted
counted-request s separate = refl

-- The number of verdicts that a cycle settles.
abbrev pub settlements : Option Settlement → ℕ
settlements none = 0
settlements (some s) = 1

-- One cycle with the routing behind it.
pub record Step (cfg : Config) (s t : CampaignState) (o : Option Settlement) : Type 0 where
  pub request : t.request ≡ s.request
  pub tallied : IsTallied (separate_bound cfg) s → IsTallied (separate_bound cfg) t
  pub tried : t.candidates_tried ≡ s.candidates_tried + settlements o

pub CycleEnd-Step :
    {cfg : Config} {s : CampaignState} {p : CampaignState × Option Settlement}
    → CycleEnd cfg s p
    → Step cfg s p.0 p.1
CycleEnd-Step {cfg} (skipped o kept stopped) = record {
  request = kept.request;
  tallied = λ h. Keeps-IsTallied (separate_bound cfg) kept h;
  tried = rw (ap settlements o) (omega (arith, kept.candidates_tried));
}
CycleEnd-Step {cfg} (settled judged kept c o) =
    let separate = separate_bound cfg in
    record {
      request = rw c (counted-request judged separate ∙ kept.request);
      tallied = λ h. rw c (counted-IsTallied judged separate (Keeps-IsTallied separate kept h));
      tried = rw (ap settlements o, c, counted-tried judged separate, kept.candidates_tried) refl;
    }

Keeps-Step :
    {cfg : Config} {s t u : CampaignState} {o : Option Settlement}
    → Step cfg s t o
    → Keeps t u
    → Step cfg s u o
Keeps-Step {cfg} st k = record {
  request = k.request ∙ st.request;
  tallied = λ h. Keeps-IsTallied (separate_bound cfg) k (st.tallied h);
  tried = k.candidates_tried ∙ st.tried;
}

-- The end `q` of a run of cycles that starts in `s` with the settlements of `journal`.
pub record RunEnd (cfg : Config) (s : CampaignState) (journal : List Settlement)
    (q : CampaignState × List Settlement) : Type 0 where
  pub request : q.0.request ≡ s.request
  pub tallied : IsTallied (separate_bound cfg) s → IsTallied (separate_bound cfg) q.0
  pub settled_all : q.0.candidates_tried + length journal ≡ s.candidates_tried + length q.1
  pub bounded : s.candidates_tried < cfg.max_candidates → q.0.candidates_tried ≤ cfg.max_candidates
  pub reasoned : str_eq q.0.stop_reason "" ≡ false

length-journal_with :
    (o : Option Settlement) (journal : List Settlement)
    → length (journal_with o journal) ≡ settlements o + length journal
length-journal_with none journal = omega arith
length-journal_with (some s) journal = omega arith

settlements-bound : (o : Option Settlement) → settlements o ≤ 1
settlements-bound none = omega arith
settlements-bound (some s) = omega arith

Step-RunEnd :
    {cfg : Config} {s t : CampaignState} {o : Option Settlement} (journal : List Settlement)
    → Step cfg s t o
    → str_eq t.stop_reason "" ≡ false
    → RunEnd cfg s journal (t, journal_with o journal)
Step-RunEnd {o} journal st reason = record {
  request = st.request;
  tallied = st.tallied;
  settled_all = omega (arith, st.tried, length-journal_with o journal);
  bounded = λ left. let one = settlements-bound o in omega (arith, left, one, st.tried);
  reasoned = reason;
}

RunEnd-Step :
    {cfg : Config} {s t : CampaignState} {o : Option Settlement} {journal : List Settlement}
    {q : CampaignState × List Settlement}
    → Step cfg s t o
    → t.candidates_tried < cfg.max_candidates
    → RunEnd cfg t (journal_with o journal) q
    → RunEnd cfg s journal q
RunEnd-Step {o} {journal} st left r = record {
  request = r.request ∙ st.request;
  tallied = λ h. r.tallied (st.tallied h);
  settled_all = omega (arith, st.tried, r.settled_all, length-journal_with o journal);
  bounded = λ _. r.bounded left;
  reasoned = r.reasoned;
}

route_cycle-RunEnd :
    (cfg : Config) (s u : CampaignState) (o : Option Settlement) (journal : List Settlement)
    (next : CampaignState → Run (CampaignState × List Settlement)) (r : CampaignState × Route)
    → Step cfg s u o
    → Routed cfg u r
    → ((t : CampaignState) → Ensures (RunEnd cfg t (journal_with o journal)) (next t))
    → Ensures (RunEnd cfg s journal) (route_cycle next (journal_with o journal) r)
unfolding route_cycle
route_cycle-RunEnd cfg s u o journal next (t, go_on) st (continues e kept still left) k =
    Ensures-map (λ q end. RunEnd-Step (Keeps-Step st kept) (rw kept.candidates_tried left) end)
      (next t) (k t)
route_cycle-RunEnd cfg s u o journal next (t, go_on) st (ends e kept reason) k = cc
route_cycle-RunEnd cfg s u o journal next (t, finish) st (ends e kept reason) k =
    Step-RunEnd journal (Keeps-Step st kept) reason
route_cycle-RunEnd cfg s u o journal next (t, finish) st (continues e kept still left) k = cc
route_cycle-RunEnd cfg s u o journal next (t, reask) st (ends e kept reason) k = cc
route_cycle-RunEnd cfg s u o journal next (t, reask) st (continues e kept still left) k = cc

-- Every run of cycles that ends without an error ends like that.
pub cycles-RunEnd :
    (fuel : ℕ) (cfg : Config) (inputs : ℕ → CycleInput) (s : CampaignState)
    (journal : List Settlement)
    → Ensures (RunEnd cfg s journal) (cycles fuel cfg inputs s journal)
unfolding cycles
cycles-RunEnd zero cfg inputs s journal = tt
cycles-RunEnd (suc fuel) cfg inputs s journal =
    Ensures-follow (CycleEnd cfg s) (RunEnd cfg s journal) (cycle cfg (inputs 0) s) _
      (cycle-CycleEnd cfg (inputs 0) s)
      λ p end.
        let journal' = journal_with p.1 journal in
        route_cycle-RunEnd cfg s p.0 p.1 journal _ (route cfg p.0) (CycleEnd-Step end)
          (route-Routed cfg p.0) λ t. cycles-RunEnd fuel cfg (λ n. inputs (suc n)) t journal'
