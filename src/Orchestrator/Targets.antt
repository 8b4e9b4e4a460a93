-- ===== src/Orchestrator/Targets.antt =====
-- internal/orchestrator/orchestrator.go: `planTarget`, `triedTargets`, `nextTarget`, `excerptsAt`
-- and `discoveryHotPaths`.
use Prim.Native.Char.{code}
use Prim.Native.String.{◌++◌}
use text.Mathlib.Text.{starts_with}
use gotorque.Prelude.{
  ℕ, ◌+◌, String, Bool, true, false, not, ◌&&◌, ◌||◌, Option, none, some, List, [], ◌∷◌, foldl,
  if◌then◌else◌, str_eq, leb, is_empty, contains, keep, map, ◌==◌,
}
use gotorque.Orchestrator.Types.{
  CampaignState, Target, PriorCandidate, FunctionRef, SourceExcerpt, HotPath,
}

-- `maxUnmeasuredAttempts`
abbrev pub max_unmeasured_attempts : ℕ
max_unmeasured_attempts = 2

-- `targetKey`: the location and the cause, with a zero byte between.
unfoldable pub target_key : Target → String
target_key t = t.location ++ ("\0" ++ t.cause)

-- The maps of `triedTargets`: keys that are tried, and how often a key went unmeasured.
pub record Attempts : Type 0 where
  pub tried : String → Bool
  pub unmeasured : String → ℕ

-- `m[key] = value`
abbrev pub put : {A : Type 0} → (String → A) → String → A → String → A
put m key value k = if str_eq key k then value else m k

-- The round for a prior candidate that had a target.
unfoldable pub note_target : Attempts → Target → Bool → Attempts
note_target a t went_unmeasured =
    let key = target_key t in
    let unmeasured =
      if went_unmeasured then put a.unmeasured key (a.unmeasured key + 1) else a.unmeasured in
    record {
      tried =
          if not went_unmeasured || leb max_unmeasured_attempts (unmeasured key)
          then put a.tried key true
          else a.tried;
      unmeasured = unmeasured;
    }

-- One round of the loop over the prior candidates.
unfoldable pub note_attempt : Attempts → PriorCandidate → Attempts
note_attempt a prior = elim prior.target [ none ↦ a | some t ↦ note_target a t prior.unmeasured ]

-- The loop over the targets of earlier campaigns.
unfoldable pub prior_tried : List Target → String → Bool
prior_tried ts =
    foldl (λ (m : String → Bool) (t : Target). put m (target_key t) true) (λ _. false) ts

-- `triedTargets`
unfoldable pub tried_targets : CampaignState → String → Bool
tried_targets state =
    (foldl note_attempt
      (record { tried = prior_tried state.request.prior_targets; unmeasured = λ _. 0 })
      state.prior_candidates).tried

-- `nextTarget`
unfoldable pub next_target : List Target → (String → Bool) → Option Target
next_target [] tried = none
next_target (t ∷ ts) tried =
    let rest = next_target ts tried in if not (tried (target_key t)) then some t else rest

-- `strings.Cut(location, ":")`, the part in front.
unfoldable pub before_colon : String → String
before_colon String.[] = String.[]
before_colon (String.◌∷◌ c s) =
    let rest = before_colon s in if code c == b':' then String.[] else String.◌∷◌ c rest

-- The second loop of `excerptsAt`: each file header is put in front of what is kept.
unfoldable pub put_headers :
    List String → List String → List SourceExcerpt → List SourceExcerpt → List SourceExcerpt
put_headers files locations [] kept = kept
put_headers files locations (e ∷ es) kept = put_headers files locations es (
    if contains files e.path && e.start_line == 1 && not (contains locations e.hot_path)
    then e ∷ kept
    else kept)

-- `excerptsAt`
unfoldable pub excerpts_at : List SourceExcerpt → Target → List SourceExcerpt
excerpts_at excerpts target =
    let locations = target.location ∷ map (λ (f : FunctionRef). f.location) target.callers in
    let kept = keep (λ (e : SourceExcerpt). contains locations e.hot_path) excerpts in
    if is_empty kept then [] else put_headers (map before_colon locations) locations excerpts kept

-- `planTarget` once the next target is known.
unfoldable pub plan_next : Option Target → CampaignState → CampaignState
plan_next none state = record state { target = none }
plan_next (some target) state =
    let excerpts = excerpts_at state.source_excerpts target in
    record state {
      target = some target;
      source_excerpts = if is_empty excerpts then state.source_excerpts else excerpts;
    }

-- `planTarget`
unfoldable pub plan_target : CampaignState → CampaignState
unfolding plan_next
plan_target state = plan_next (next_target state.analysis.targets (tried_targets state)) state

-- `strings.Contains(name, ":")`
has_colon : String → Bool
has_colon String.[] = false
has_colon (String.◌∷◌ c s) = code c == b':' || has_colon s

-- `discoveryHotPaths`
unfoldable pub discovery_hot_paths : List String → List HotPath
unfolding has_colon
discovery_hot_paths fns =
    map (λ (fn : String). let h : HotPath = record { location = fn } in h)
      (keep (λ (fn : String). has_colon fn && not (starts_with fn "runtime")) fns)
