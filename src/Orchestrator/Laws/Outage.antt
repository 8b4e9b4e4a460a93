-- ===== src/Orchestrator/Laws/Outage.antt =====
-- internal/orchestrator/termination.go and `route` of orchestrator.go: an outage of the model provider.
use Prim.Native.String.{◌++◌}
use gotorque.Prelude.{
  ℕ, ◌+◌, ◌≤◌, String, true, Option, none, some, ◌≡◌, refl, ◌∙◌, arith, str_eq, leb,
}
use gotorque.Orchestrator.Types.{Config, CampaignState}
use gotorque.Orchestrator.Termination.{
  ended, ended_after_cycle, ended_with, provider_failure, stop_reason_provider_failure,
  outage_limit,
}
use gotorque.Orchestrator.Nodes.{finish, route, route_with, count_outage, outage_after}

outage_after-failure :
    (o : Option String) (s : CampaignState)
    → provider_failure (outage_after o s) ≡ provider_failure s
unfolding outage_after provider_failure
outage_after-failure none s = refl
outage_after-failure (some f) s = refl

outage-counted :
    (s : CampaignState) (o : Option String) (failure : String)
    → o ≡ some failure
    → (outage_after o s).outage_cycles ≡ s.outage_cycles + 1
unfolding outage_after
outage-counted s o failure h = rw h refl

count_outage-failing :
    (s : CampaignState) (failure : String)
    → provider_failure s ≡ some failure
    → (provider_failure (count_outage s) ≡ some failure)
      × ((count_outage s).outage_cycles ≡ s.outage_cycles + 1)
unfolding count_outage
count_outage-failing s failure h = (
  outage_after-failure (provider_failure s) s ∙ h,
  outage-counted s (provider_failure s) failure h,
)

ended_with-outage :
    (failure : String) (cfg : Config) (s : CampaignState)
    → leb outage_limit s.outage_cycles ≡ true
    → ended_with (some failure) cfg s
      ≡ some (record { reason = stop_reason_provider_failure ++ failure; failure = failure })
unfolding ended_with
ended_with-outage failure cfg s h = rw h refl

leb_of_le : (m n : ℕ) → m ≤ n → leb m n ≡ true
leb_of_le m n h = ground arith

-- A campaign ends at an outage of the provider that the cycle before already counted, whatever bound
-- is reached too; the failure is kept with the state and told in the reason.
pub route-outage :
    (cfg : Config) (s : CampaignState) (failure : String)
    → str_eq s.stop_reason "" ≡ true
    → provider_failure s ≡ some failure
    → 1 ≤ s.outage_cycles
    → ((route cfg s).1 ≡ finish)
      × ((route cfg s).0.provider_failure ≡ failure)
      × ((route cfg s).0.stop_reason ≡ stop_reason_provider_failure ++ failure)
unfolding route route_with ended ended_after_cycle
route-outage cfg s failure open_still h second =
    let (still, counted) = count_outage-failing s failure h in
    let out =
      ended_with-outage failure cfg (count_outage s)
        (leb_of_le outage_limit (count_outage s).outage_cycles (omega (arith, counted, second))) in
    rw (open_still, still, out) (refl, refl, refl)
