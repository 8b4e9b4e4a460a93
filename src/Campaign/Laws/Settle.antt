-- ===== src/Campaign/Laws/Settle.antt =====
-- internal/campaign/adk.go and internal/orchestrator/orchestrator.go: a settled verdict is what a resumed
-- campaign reads.
use gotorque.Prelude.{
  Bool, true, false, List, [], ◌∷◌, ◌++◌, if◌then◌else◌, length, length-append, ◌≡◌, refl, ap, ◌∙◌,
}
use gotorque.Domain.{MetricComparison}
use gotorque.Outcome.{Outcome, ok, err, Yields, Yields-bound, is_ok}
use gotorque.Orchestrator.Types.{Config, CampaignState, ReviewerResult}
use gotorque.Orchestrator.Nodes.{
  separate_bound, Settlement, is_accepted, count_decision, prior_of, counted, settlement_of,
  apply_policy,
}
use gotorque.Campaign.History.{CandidateRecord, recorded_candidates, recorded_candidate}
use gotorque.Campaign.Settle.{
  Recorded, candidate_record, persist_verdict, settle_tallies, settle_kept, settle,
}

tallies-settlement :
    (s settled : CampaignState)
    → ((settlement_of s settled).consecutive_failures ≡ settled.consecutive_failures)
      × ((settlement_of s settled).consecutive_inconclusive ≡ settled.consecutive_inconclusive)
unfolding settlement_of
tallies-settlement s settled = (refl, refl)

module _ {F : Type 0} where
  recorded_candidates-append :
      (xs ys : List (CandidateRecord F))
      → recorded_candidates (xs ++ ys) ≡ recorded_candidates xs ++ recorded_candidates ys
  unfolding recorded_candidates
  recorded_candidates-append [] ys = refl
  recorded_candidates-append (x ∷ xs) ys =
      ap (λ rest. recorded_candidate x ∷ rest) (recorded_candidates-append xs ys)

  -- The records are those of the attempts that the graph's state has in its history.
  abbrev pub Records : Recorded F → CampaignState → Type 0
  Records r s =
      (recorded_candidates r.candidate_records ≡ s.prior_candidates)
      × (length r.candidate_records ≡ s.candidates_tried)

  -- What a settlement that ends without an error leaves: the record, and the tallies.
  abbrev Settles :
      Settlement → List (MetricComparison F) → Recorded F → Recorded F × Outcome (Unit {0}) → Type 0
  Settles st comparisons r (after, result) =
      (after.candidate_records ≡ (persist_verdict st comparisons r).candidate_records)
      × (after.consecutive_failures ≡ st.consecutive_failures)
      × (after.consecutive_inconclusive ≡ st.consecutive_inconclusive)

  module _ (st : Settlement) (comparisons : List (MetricComparison F)) (r : Recorded F) where
    kept-Settles :
        (kept promoted saved : Outcome (Unit {0}))
        → is_ok (settle_kept kept promoted saved st comparisons r).1 ≡ true
        → Settles st comparisons r (settle_kept kept promoted saved st comparisons r)
    unfolding settle_kept settle_tallies
    kept-Settles (err e) promoted saved h = cc
    kept-Settles (ok _) (err e) saved h = cc
    kept-Settles (ok _) (ok _) saved h = (refl, refl, refl)

    either-Settles :
        (b : Bool) (x y : Recorded F × Outcome (Unit {0}))
        → (is_ok x.1 ≡ true → Settles st comparisons r x)
        → (is_ok y.1 ≡ true → Settles st comparisons r y)
        → is_ok (if b then x else y).1 ≡ true
        → Settles st comparisons r (if b then x else y)
    either-Settles true x y f g h = f h
    either-Settles false x y f g h = g h

    settle-Settles :
        (kept promoted saved : Outcome (Unit {0}))
        → is_ok (settle kept promoted saved st comparisons r).1 ≡ true
        → Settles st comparisons r (settle kept promoted saved st comparisons r)
    unfolding settle
    settle-Settles kept promoted saved h =
        either-Settles (is_accepted st.assessment.verdict.decision)
          (settle_kept kept promoted saved st comparisons r)
          (settle_kept (ok tt) (ok tt) saved st comparisons r) (kept-Settles kept promoted saved)
          (kept-Settles (ok tt) (ok tt) saved) h

  -- A record of the settlement is read back as the attempt that the graph appends to its history.
  record-prior_of :
      (cfg : Config) (s : CampaignState) (comparisons : List (MetricComparison F)) (r : Recorded F)
      → Records r s
      → s.candidate.hypothesis ≡ s.proposal.hypothesis
      → recorded_candidates
          (persist_verdict
            (settlement_of s (counted s (separate_bound cfg)))
            comparisons
            r).candidate_records
        ≡ (counted s (separate_bound cfg)).prior_candidates
  unfolding recorded_candidates persist_verdict candidate_record settlement_of counted prior_of
      count_decision
  record-prior_of cfg s comparisons r (same, size) e =
      recorded_candidates-append r.candidate_records _ ∙ rw (same, size, e) refl

  persist-length :
      (cfg : Config) (s : CampaignState) (comparisons : List (MetricComparison F)) (r : Recorded F)
      → Records r s
      → length
          (persist_verdict
            (settlement_of s (counted s (separate_bound cfg)))
            comparisons
            r).candidate_records
        ≡ (counted s (separate_bound cfg)).candidates_tried
  unfolding persist_verdict counted count_decision
  persist-length cfg s comparisons r (same, size) =
      length-append r.candidate_records _ ∙ rw size refl

  -- What a settled verdict leaves with the engine is what a campaign that is resumed starts from.
  abbrev pub Resumes : Recorded F → CampaignState → Type 0
  Resumes r s =
      Records r s
      × (r.consecutive_failures ≡ s.consecutive_failures)
      × (r.consecutive_inconclusive ≡ s.consecutive_inconclusive)

  settled-Resumes :
      (cfg : Config) (s : CampaignState) (kept promoted saved : Outcome (Unit {0}))
      (comparisons : List (MetricComparison F)) (r : Recorded F)
      → Records r s
      → s.candidate.hypothesis ≡ s.proposal.hypothesis
      → is_ok
          (settle kept promoted saved
            (settlement_of s (counted s (separate_bound cfg)))
            comparisons
            r).1
        ≡ true
      → Resumes
          (settle kept promoted saved
            (settlement_of s (counted s (separate_bound cfg)))
            comparisons
            r).0
          (counted s (separate_bound cfg))
  settled-Resumes cfg s kept promoted saved comparisons r h e done =
      let settled = counted s (separate_bound cfg) in
      let st = settlement_of s settled in
      let (left, failures, inconclusive) =
        settle-Settles st comparisons r kept promoted saved done in
      (
        (
          ap recorded_candidates left ∙ record-prior_of cfg s comparisons r h e,
          ap length left ∙ persist-length cfg s comparisons r h,
        ),
        failures ∙ (tallies-settlement s settled).0,
        inconclusive ∙ (tallies-settlement s settled).1,
      )

  -- A campaign's engine whose records are the attempts of the graph's history has, after `applyPolicy`
  -- settles a verdict without an error, records that are read back as the history that the graph goes on
  -- with, one for each candidate that was tried, and the graph's tallies. The evidence has the hypothesis of
  -- the proposal that was evaluated.
  pub apply_policy-Resumes :
      (cfg : Config) (s : CampaignState) (answer : Outcome ReviewerResult)
      (kept promoted saved : Outcome (Unit {0})) (comparisons : List (MetricComparison F))
      (r : Recorded F)
      → Records r s
      → s.candidate.hypothesis ≡ s.proposal.hypothesis
      → Yields
          (λ (settled, st). Resumes (settle kept promoted saved st comparisons r).0 settled)
          (apply_policy cfg answer (λ st. (settle kept promoted saved st comparisons r).1) s)
  unfolding apply_policy
  apply_policy-Resumes cfg s answer kept promoted saved comparisons r h e =
      Yields-bound _ answer _ λ review _.
        let reviewed = record s { review = review } in
        Yields-bound _
          (settle kept promoted saved
            (settlement_of reviewed (counted reviewed (separate_bound cfg))) comparisons r).1
          _
          λ u done.
            settled-Resumes cfg reviewed kept promoted saved comparisons r h e (ap is_ok done)
