-- ===== src/Selection/Evaluator/Scores.antt =====
-- How large the scores of the candidates are.
use edgeiq.Base.{
  ℕ, ◌+◌, ◌≤◌, ◌≡◌, refl, List, [], ◌∷◌, String, Result, ok, >>=-eq-ok, ok-injective, sym, subst,
  All,
}
use mathlib.Core.List.Permᴰ
use edgeiq.Base.Sorting.{sorted_by, sorted_by-Permᴰ, All-Permᴰ}
use edgeiq.Platform.{Interpreter}
use edgeiq.Selection.Domain.{
  Formats, WorkerReadinessEvidence, WorkerSelectionRequest, WorkerSelectionCandidate,
  WorkerSelection,
}
use edgeiq.Selection.Policy.{ScoringPolicy, policy_for, score_components, total_score, losses}
use edgeiq.Selection.Policy.Bounds.{Bounded, score_components-Bounded, losses-Bounded}
use edgeiq.Selection.Evaluator.{
  Scored, Screened, exclusion_reasons, screen_one, screen, ranks_before, candidate, ranked,
  selection_of, evaluate,
}
use edgeiq.Selection.Evaluator.Ordering.{evaluate-Evaluated}

module _ ⦃p : Interpreter⦄ ⦃f : Formats⦄ (r : WorkerSelectionRequest) where
  abbrev Within : Scored → Type 0
  Within s =
      All Bounded s.components
      × (s.total ≤ 100000000)
      × (s.total ≡ total_score s.components)
      × (losses s.components ≡ 0)

  abbrev pub Scaled : WorkerSelectionCandidate → Type 0
  Scaled c =
      All Bounded c.score_components
      × (c.score ≤ 100000000)
      × (c.score ≡ total_score c.score_components)
      × (losses c.score_components ≡ 0)

  module _ (policy : ScoringPolicy) (q : policy_for r.scoring_policy_version ≡ ok policy) where
    screen_one-Within :
        (e : WorkerReadinessEvidence) (reasons : List String) (rest : Result _ Screened)
        {s : Screened}
        → ((t : Screened) → rest ≡ ok t → All Within t.provisional)
        → screen_one policy e reasons rest ≡ ok s
        → All Within s.provisional
    unfolding screen_one
    screen_one-Within e [] rest within h =
        let (cs, scored, h1) =
          >>=-eq-ok (score_components e.scores e.evidence_references policy) _ h in
        let (t, screened, h2) = >>=-eq-ok rest _ h1 in
        let (bounded, small) =
          score_components-Bounded r.scoring_policy_version policy e.scores e.evidence_references q
            scored in
        rw (sym (ok-injective h2))
          ((bounded, small, refl, losses-Bounded cs bounded), within t screened)
    screen_one-Within e (reason ∷ reasons) rest within h =
        let (t, screened, h2) = >>=-eq-ok rest _ h in rw (sym (ok-injective h2)) (within t screened)

    screen-Within :
        (es : List WorkerReadinessEvidence) {s : Screened}
        → screen r policy es ≡ ok s
        → All Within s.provisional
    unfolding screen
    screen-Within [] h = rw (sym (ok-injective h)) tt
    screen-Within (e ∷ es) h =
        screen_one-Within e (exclusion_reasons r e) (screen r policy es) (λ t k. screen-Within es k)
          h

  ranked-Scaled : (n : ℕ) (ss : List Scored) → All Within ss → All Scaled (ranked r n ss)
  unfolding ranked candidate
  ranked-Scaled n [] h = tt
  ranked-Scaled n (s ∷ ss) h = (h.0, ranked-Scaled (n + 1) ss h.1)

  -- The score of each candidate is the sum of its weighted components, each multiplied by its weight and of
  -- the sign of its normalized value, which is at most 1, and zero if it has a negative sign, so that
  -- nothing is taken away in the sum; the score is at most 100.
  pub evaluate-Scaled :
      (version : ℕ) {s : WorkerSelection} → evaluate r version ≡ ok s → All Scaled s.candidates
  unfolding selection_of
  evaluate-Scaled version h =
      let e = evaluate-Evaluated r version h in
      let scored = e.screened.provisional in
      subst (λ (s : WorkerSelection). All Scaled s.candidates) (sym e.selection)
        (ranked-Scaled 1 (sorted_by ranks_before scored) (
          All-Permᴰ Within (Permᴰ.symm (sorted_by-Permᴰ ranks_before scored))
            (screen-Within e.policy e.registered r.readiness e.screening)))
