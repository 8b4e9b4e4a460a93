-- ===== src/Campaign/Laws/History.antt =====
-- internal/campaign/history.go: what a campaign knows of earlier ones, and the targets that it leaves alone.
use gotorque.Prelude.{
  ◌≤◌, String, Bool, true, false, ◌&&◌, ◌||◌, Option, none, some, List, [], ◌∷◌, ◌++◌, str_eq,
  eq_iff, contains, length, length-append, leb, ◌==◌, ◌≡◌, refl, sym, ap, ◌∙◌, arith, Bool-cases,
  inl, inr,
}
use gotorque.Outcome.{Outcome, ok, err, ◌>>=◌, Yields, Yields-bind, Yields-bound, Yields-map}
use gotorque.Domain.{Decision}
use gotorque.Orchestrator.Types.{Target, PriorCandidate, CampaignState}
use gotorque.Orchestrator.Targets.{target_key}
use gotorque.Orchestrator.Laws.Targets.{listed, is_closed, measured, unmeasured_attempts}
use gotorque.Campaign.History.{
  gather_one, CandidateRecord, Past, History, Gathered, gather, put_target, is_measured,
  measured_targets, append_earlier_candidates, earlier_candidate, add_report, load_from,
  load_history, no_history,
}

listed-append :
    (key : String) (xs ys : List Target) → listed key (xs ++ ys) ≡ (listed key xs || listed key ys)
listed-append key [] ys = refl
listed-append key (x ∷ xs) ys = rw (listed-append key xs ys) (ground arith)

-- No two targets have the same key.
abbrev pub Distinct : List Target → Type 0
Distinct [] = Unit
Distinct (t ∷ ts) = (listed (target_key t) ts ≡ false) × Distinct ts

Distinct-append :
    (ts : List Target) (t : Target)
    → Distinct ts
    → listed (target_key t) ts ≡ false
    → Distinct (ts ++ t ∷ [])
Distinct-append [] t h e = (refl, tt)
Distinct-append (x ∷ xs) t (p, h) e = (
  rw (listed-append (target_key x) xs (t ∷ []), p)
      (ground
        (arith, e, eq_iff (target_key x) (target_key t), eq_iff (target_key t) (target_key x))),
  Distinct-append xs t h (ground (arith, e)),
)

-- The keys that were seen are those of the targets that are kept, which are distinct.
abbrev pub Agrees : List String → List Target → Type 0
Agrees seen kept = ((key : String) → contains seen key ≡ listed key kept) × Distinct kept

Agrees-put :
    (seen : List String) (kept : List Target) (t : Target)
    → Agrees seen kept
    → contains seen (target_key t) ≡ false
    → Agrees (target_key t ∷ seen) (kept ++ t ∷ [])
Agrees-put seen kept t (same, distinct) e = (
  λ key. rw (same key, listed-append key kept (t ∷ [])) (ground arith),
  Distinct-append kept t distinct (sym (same (target_key t)) ∙ e),
)

-- A target whose key is among the kept ones adds none.
kept-listed :
    (kept : List Target) (t : Target) (key : String)
    → listed (target_key t) kept ≡ true
    → listed key kept ≡ (listed key kept || str_eq (target_key t) key)
kept-listed kept t key h = elim (Bool-cases (str_eq (target_key t) key)) [
  | inl e ↦ rw (sym (ap (λ k. listed k kept) ((eq_iff (target_key t) key).0 e)) ∙ h) refl
  | inr e ↦ rw e (ground arith)
]

gather_one-Gathers :
    (g : Gathered) (t : Target)
    → Agrees g.seen g.kept
    → Agrees (gather_one g t).seen (gather_one g t).kept
      × ((key : String)
          → listed key (gather_one g t).kept ≡ (listed key g.kept || str_eq (target_key t) key))
gather_one-Gathers g t h = elim (Bool-cases (contains g.seen (target_key t))) [
  | inl e ↦ rw e (h, λ key. kept-listed g.kept t key (sym (h.0 (target_key t)) ∙ e))
  | inr e ↦
      rw e (Agrees-put g.seen g.kept t h e, λ key. listed-append key g.kept (t ∷ []) ∙ ground arith)
]

-- What gathering the targets of a report leaves.
abbrev Gathers : Gathered → List Target → Type 0
Gathers g ts =
    Agrees (gather g ts).seen (gather g ts).kept
    × ((key : String) → listed key (gather g ts).kept ≡ (listed key g.kept || listed key ts))

gather-Gathers : (g : Gathered) (ts : List Target) → Agrees g.seen g.kept → Gathers g ts
unfolding gather
gather-Gathers g [] h = (h, λ key. ground arith)
gather-Gathers g (t ∷ ts) h =
    let (first, one) = gather_one-Gathers g t h in
    let (agrees, view) = gather-Gathers (gather_one g t) ts first in
    (agrees, λ key. view key ∙ rw (one key) (ground arith))

abbrev pub is_target : String → Option Target → Bool
is_target key none = false
is_target key (some t) = str_eq (target_key t) key

put_target-listed :
    (key : String) (o : Option Target) (m : Bool) (ts : List Target)
    → listed key (put_target o m ts) ≡ ((is_target key o && m) || listed key ts)
put_target-listed key none m ts = refl
put_target-listed key (some t) true ts = ground arith
put_target-listed key (some t) false ts = ground arith

module _ {F : Type 0} where
  -- A record of a measured candidate for the target of a key.
  abbrev pub measured_for : String → CandidateRecord F → Bool
  measured_for key r = is_target key r.target && is_measured r

  abbrev pub measured_in : String → List (CandidateRecord F) → Bool
  measured_in key [] = false
  measured_in key (r ∷ rs) = measured_for key r || measured_in key rs

  measured_targets-listed :
      (key : String) (rs : List (CandidateRecord F))
      → listed key (measured_targets rs) ≡ measured_in key rs
  unfolding measured_targets
  measured_targets-listed key [] = refl
  measured_targets-listed key (r ∷ rs) =
      put_target-listed key r.target (is_measured r) (measured_targets rs)
      ∙ rw (measured_targets-listed key rs) refl

  priors-bound :
      (into : List PriorCandidate) (rs : List (CandidateRecord F))
      → length into ≤ 16
      → length (append_earlier_candidates into rs) ≤ 16
  unfolding append_earlier_candidates
  priors-bound into [] h = h
  priors-bound into (r ∷ rs) h = elim (Bool-cases (length into == 16)) [
    | inl e ↦ rw e h
    | inr e ↦ elim (Bool-cases (is_measured r)) [
      | inl m ↦
          rw (e, m)
            (priors-bound (into ++ earlier_candidate r ∷ []) rs
              (ground (arith, e, h, length-append into (earlier_candidate r ∷ []))))
      | inr m ↦ rw (e, m) (priors-bound into rs h)
    ]
  ]

-- The state of a campaign whose request carries a history's targets.
abbrev pub with_history : History → CampaignState → CampaignState
with_history h s = record s { request = record s.request { prior_targets = h.targets } }

-- A report of the revision has a measured candidate for the target of a key.
abbrev pub reports : {F : Type 0} → String → String → Outcome (Past F) → Bool
reports revision key (ok past) =
    str_eq past.revision revision && measured_in key past.candidate_records
reports revision key (err e) = false

module _ {F : Type 0} (abs : String → Outcome String)
    (load_report : String → Outcome (Past F)) where
  -- One of the directories has such a report.
  abbrev pub measured_earlier : String → String → List String → Bool
  measured_earlier revision key [] = false
  measured_earlier revision key (dir ∷ dirs) =
      reports revision key (abs dir >>= λ directory. load_report directory)
      || measured_earlier revision key dirs

module _ {F : Type 0} (abs : String → Outcome String) (load_report : String → Outcome (Past F))
    (decision_text : Decision → String) where
  -- The state of `loadHistory` between two directories.
  record IsHistory (h : List String × History) : Type 0 where
    pub agrees : Agrees h.0 h.1.targets
    pub bounded : length h.1.priors ≤ 16

  add_report-IsHistory :
      (revision directory : String) (past : Past F) (h : List String × History)
      → IsHistory h
      → IsHistory (add_report abs load_report decision_text revision directory past h)
  unfolding add_report
  add_report-IsHistory revision directory past (seen, h) i =
      elim (Bool-cases (str_eq past.revision revision)) [
        | inl e ↦ rw e record {
          agrees =
              (gather-Gathers record { seen = seen; kept = h.targets; fresh = 0 }
                (measured_targets past.candidate_records) i.agrees).0;
          bounded = priors-bound h.priors past.candidate_records i.bounded;
        }
        | inr e ↦ rw e record { agrees = i.agrees; bounded = i.bounded }
      ]

  add_report-listed :
      (revision directory : String) (past : Past F) (h : List String × History) (key : String)
      → IsHistory h
      → listed key (add_report abs load_report decision_text revision directory past h).1.targets
        ≡ (listed key h.1.targets || reports revision key (ok past))
  unfolding add_report
  add_report-listed revision directory past (seen, h) key i =
      elim (Bool-cases (str_eq past.revision revision)) [
        | inl e ↦ rw e (
            (gather-Gathers record { seen = seen; kept = h.targets; fresh = 0 }
                (measured_targets past.candidate_records) i.agrees).1
              key
            ∙ rw (measured_targets-listed key past.candidate_records) refl)
        | inr e ↦ rw e (ground arith)
      ]

  abbrev Loads : String → List String → List String × History → List String × History → Type 0
  Loads revision dirs h out =
      IsHistory out
      × ((key : String)
          → listed key out.1.targets
            ≡ (listed key h.1.targets || measured_earlier abs load_report revision key dirs))

  load_from-Loads :
      (revision : String) (dirs : List String) (h : List String × History)
      → IsHistory h
      → Yields (Loads revision dirs h) (load_from abs load_report decision_text revision dirs h)
  unfolding load_from
  load_from-Loads revision [] h i = (i, λ key. ground arith)
  load_from-Loads revision (dir ∷ dirs) h i =
      Yields-bound (Loads revision (dir ∷ dirs) h) (abs dir) _ λ directory found.
        Yields-bound (Loads revision (dir ∷ dirs) h) (load_report directory) _ λ past read.
          let next = add_report abs load_report decision_text revision directory past h in
          Yields-map
            (λ out (later, view). (
              later,
              λ key.
                  view key
                  ∙ rw (add_report-listed revision directory past h key i, found, read)
                      (ground arith),
            ))
            (load_from abs load_report decision_text revision dirs next)
            (load_from-Loads revision dirs next (add_report-IsHistory revision directory past h i))

  -- A history that is loaded keeps no two targets with the same key and at most sixteen earlier candidates.
  -- A campaign that carries it makes no attempt on a target exactly where one of the campaigns it read, of
  -- the same revision, measured a candidate for it, or its own attempts close it.
  pub load_history-closes :
      (dirs : List String) (revision : String) (s : CampaignState) (key : String)
      → Yields
          (λ h.
            Distinct h.targets
            × (length h.priors ≤ 16)
            × (is_closed (with_history h s) key ≡ (
                measured_earlier abs load_report revision key dirs
                || (measured key s.prior_candidates
                    || leb 2 (unmeasured_attempts key s.prior_candidates)))))
          (load_history abs load_report decision_text dirs revision)
  unfolding load_history
  load_history-closes dirs revision s key =
      Yields-bind (Loads revision dirs ([], no_history)) _
        (load_from abs load_report decision_text revision dirs ([], no_history)) _
        (load_from-Loads revision dirs ([], no_history)
          record { agrees = (λ k. refl, tt); bounded = omega arith })
        λ (seen, h) (i, view). (i.agrees.1, i.bounded, rw (view key) refl)
