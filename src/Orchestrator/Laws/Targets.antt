-- ===== src/Orchestrator/Laws/Targets.antt =====
-- internal/orchestrator/orchestrator.go: which target a cycle works on.
use mathlib.Core.Path.{subst}
use gotorque.Prelude.{
  String, ℕ, ◌+◌, Bool, true, false, not, ◌&&◌, ◌||◌, Option, none, some, List, [], ◌∷◌, foldl, ◌≡◌,
  refl, ◌∙◌, arith, str_eq, leb, if◌then◌else◌, Bool-cases, inl, inr, eq_iff, eq_refl,
}
use gotorque.Orchestrator.Types.{CampaignState, Target, PriorCandidate}
use gotorque.Orchestrator.Targets.{
  target_key, Attempts, put, note_attempt, note_target, prior_tried, tried_targets, next_target,
  plan_next, plan_target,
}

-- An attempt was made on the target of a key.
abbrev pub attempted : String → PriorCandidate → Bool
attempted key c = elim c.target [ none ↦ false | some t ↦ str_eq (target_key t) key ]

-- One of the attempts on a key was measured.
abbrev pub measured : String → List PriorCandidate → Bool
measured key [] = false
measured key (c ∷ cs) = (attempted key c && not c.unmeasured) || measured key cs

-- How many attempts on a key were not measured.
abbrev pub unmeasured_attempts : String → List PriorCandidate → ℕ
unmeasured_attempts key [] = 0
unmeasured_attempts key (c ∷ cs) =
    (if attempted key c && c.unmeasured then 1 else 0) + unmeasured_attempts key cs

-- A key is that of one of the targets.
abbrev pub listed : String → List Target → Bool
listed key [] = false
listed key (t ∷ ts) = str_eq (target_key t) key || listed key ts

-- A key that no more attempts are to be made on.
abbrev pub is_closed : CampaignState → String → Bool
is_closed s key =
    listed key s.request.prior_targets
    || (measured key s.prior_candidates || leb 2 (unmeasured_attempts key s.prior_candidates))

-- The first target that is not closed.
abbrev pub first_open : CampaignState → List Target → Option Target
first_open s [] = none
first_open s (t ∷ ts) = if is_closed s (target_key t) then first_open s ts else some t

prior_tried-listed :
    (key : String) (ts : List Target) (m : String → Bool)
    → foldl (λ (m : String → Bool) (t : Target). put m (target_key t) true) m ts key
      ≡ (m key || listed key ts)
prior_tried-listed key [] m = ground arith
prior_tried-listed key (t ∷ ts) m =
    let rest = prior_tried-listed key ts (put m (target_key t) true) in rw rest (ground arith)

or_true : (b : Bool) → true ≡ (b || true)
or_true b = ground arith

or_false : (b : Bool) → b ≡ (b || false)
or_false b = ground arith

-- What an attempt on a target says at a key.
abbrev Noted : Attempts → Bool → Bool → Attempts → String → Type 0
Noted a same went_unmeasured b key =
    (b.unmeasured key ≡ a.unmeasured key + (if same && went_unmeasured then 1 else 0))
    × (b.tried key ≡ (a.tried key || (same && (not went_unmeasured || leb 2 (b.unmeasured key)))))

note_target-same :
    (a : Attempts) (t : Target) (u : Bool) → Noted a true u (note_target a t u) (target_key t)
unfolding note_target
note_target-same a t true =
    let key = target_key t in
    elim (Bool-cases (leb 2 (a.unmeasured key + 1))) [
      | inl e ↦ rw (eq_refl key, e, eq_refl key) (refl, or_true (a.tried key))
      | inr e ↦ rw (eq_refl key, e) (refl, or_false (a.tried key))
    ]
note_target-same a t false =
    rw (eq_refl (target_key t)) (omega arith, or_true (a.tried (target_key t)))

note_target-other :
    (a : Attempts) (t : Target) (u : Bool) (key : String)
    → str_eq (target_key t) key ≡ false
    → Noted a false u (note_target a t u) key
unfolding note_target
note_target-other a t true key e =
    elim (Bool-cases
      (leb 2 (put a.unmeasured (target_key t) (a.unmeasured (target_key t) + 1) (target_key t)))) [
        | inl more ↦ rw (more, e) (omega arith, or_false (a.tried key))
        | inr less ↦ rw (less, e) (omega arith, or_false (a.tried key))
      ]
note_target-other a t false key e = rw e (omega arith, or_false (a.tried key))

note_target-Noted :
    (a : Attempts) (t : Target) (u : Bool) (key : String)
    → Noted a (str_eq (target_key t) key) u (note_target a t u) key
note_target-Noted a t u key = elim (Bool-cases (str_eq (target_key t) key)) [
  | inr e ↦ rw e (note_target-other a t u key e)
  | inl e ↦ rw e (
      subst (λ k. Noted a true u (note_target a t u) k) ((eq_iff (target_key t) key).0 e)
        (note_target-same a t u))
]

note_attempt-Noted :
    (a : Attempts) (target : Option Target) (c : PriorCandidate) (key : String)
    → c.target ≡ target
    → Noted a (attempted key c) c.unmeasured (note_attempt a c) key
unfolding note_attempt
note_attempt-Noted a none c key e = rw e (omega arith, or_false (a.tried key))
note_attempt-Noted a (some t) c key e = rw e (note_target-Noted a t c.unmeasured key)

-- The tried keys take in those that went unmeasured twice.
abbrev Settles : Attempts → String → Type 0
Settles a key = leb 2 (a.unmeasured key) ≡ true → a.tried key ≡ true

settled-once :
    (before after same u : Bool) (n m : ℕ)
    → m ≡ n + (if same && u then 1 else 0)
    → after ≡ (before || (same && (not u || leb 2 m)))
    → (leb 2 n ≡ true → before ≡ true)
    → leb 2 m ≡ true
    → after ≡ true
settled-once before after same u n m count tried h twice = ground arith

tally-once :
    (before after same u seen : Bool) (n m k : ℕ)
    → m ≡ n + (if same && u then 1 else 0)
    → after ≡ (before || (same && (not u || leb 2 m)))
    → (after || (seen || leb 2 (m + k)))
      ≡ (before || (((same && not u) || seen) || leb 2 (n + ((if same && u then 1 else 0) + k))))
tally-once before after same u seen n m k count tried = ground arith

tally-none :
    (before : Bool) (n : ℕ)
    → (leb 2 n ≡ true → before ≡ true)
    → before ≡ (before || (false || leb 2 (n + 0)))
tally-none before n h = ground arith

foldl-note_attempt :
    (key : String) (cs : List PriorCandidate) (a : Attempts)
    → Settles a key
    → (foldl note_attempt a cs).tried key
      ≡ (a.tried key || (measured key cs || leb 2 (a.unmeasured key + unmeasured_attempts key cs)))
foldl-note_attempt key [] a h = tally-none (a.tried key) (a.unmeasured key) h
foldl-note_attempt key (c ∷ cs) a h =
    let b = note_attempt a c in
    let same = attempted key c in
    let (count, tried) = note_attempt-Noted a c.target c key refl in
    let settles : Settles b key =
      settled-once (a.tried key) (b.tried key) same c.unmeasured (a.unmeasured key)
        (b.unmeasured key) count tried h in
    foldl-note_attempt key cs b settles
    ∙ tally-once (a.tried key) (b.tried key) same c.unmeasured (measured key cs) (a.unmeasured key)
        (b.unmeasured key) (unmeasured_attempts key cs) count tried

-- The keys that the search passes over are the closed ones.
tried_targets-closed : (s : CampaignState) (key : String) → tried_targets s key ≡ is_closed s key
unfolding tried_targets prior_tried
tried_targets-closed s key =
    let start : Attempts = record {
      tried = prior_tried s.request.prior_targets;
      unmeasured = λ _. 0;
    } in
    let n = unmeasured_attempts key s.prior_candidates in
    let same : 0 + n ≡ n = omega arith in
    rw
      (
        foldl-note_attempt key s.prior_candidates start (λ h. cc),
        same,
        prior_tried-listed key s.request.prior_targets (λ _. false),
      )
      refl

if-not : {A : Type 0} (b : Bool) (x y : A) → (if not b then x else y) ≡ (if b then y else x)
if-not true x y = refl
if-not false x y = refl

next_target-first_open :
    (s : CampaignState) (ts : List Target) → next_target ts (tried_targets s) ≡ first_open s ts
unfolding next_target
next_target-first_open s [] = refl
next_target-first_open s (t ∷ ts) =
    rw (tried_targets-closed s (target_key t), next_target-first_open s ts)
      (if-not (is_closed s (target_key t)) (some t) (first_open s ts))

plan_next-target : (o : Option Target) (s : CampaignState) → (plan_next o s).target ≡ o
unfolding plan_next
plan_next-target none s = refl
plan_next-target (some t) s = refl

-- A cycle works on the first target of the analysis that is still open: no earlier campaign worked
-- on it, no attempt on it was measured, and it went unmeasured less than twice.
pub plan_target-first_open :
    (s : CampaignState) → (plan_target s).target ≡ first_open s s.analysis.targets
unfolding plan_target
plan_target-first_open s =
    plan_next-target (next_target s.analysis.targets (tried_targets s)) s
    ∙ next_target-first_open s s.analysis.targets
