-- ===== src/Selection/Evaluator/Partition.antt =====
-- Which worker becomes a candidate, and which is excluded.
use edgeiq.Base.{
  ℕ, ◌+◌, ◌≡◌, refl, List, [], ◌∷◌, Result, ok, >>=-eq-ok, ok-injective, sym, ap, subst, map,
  String,
}
use mathlib.Core.List.{Permᴰ}
use mathlib.Core.List.Permᴰ
use mathlib.Core.Path.{ap₂}
use edgeiq.Base.Sorting.{sorted_by, sorted_by-Permᴰ}
use edgeiq.Platform.{Interpreter}
use edgeiq.Selection.Domain.{
  Formats, WorkerReadinessEvidence, WorkerSelectionRequest, WorkerSelectionCandidate,
  WorkerSelectionExclusion, WorkerSelection,
}
use edgeiq.Selection.Policy.{ScoringPolicy, score_components}
use edgeiq.Selection.Evaluator.{
  Scored, Screened, exclusion_reasons, exclusion, screen_one, screen, ranks_before, candidate,
  ranked, selection_of, evaluate,
}
use edgeiq.Selection.Evaluator.Ordering.{evaluate-Evaluated}

abbrev keep_if_none :
    List String
    → WorkerReadinessEvidence
    → List WorkerReadinessEvidence
    → List WorkerReadinessEvidence
keep_if_none [] e es = e ∷ es
keep_if_none (reason ∷ reasons) e es = es

abbrev keep_if_some :
    List String
    → WorkerReadinessEvidence
    → List WorkerReadinessEvidence
    → List WorkerReadinessEvidence
keep_if_some [] e es = es
keep_if_some (reason ∷ reasons) e es = e ∷ es

module _ (r : WorkerSelectionRequest) where
  -- The evidence that has no reason against it, in its order, and the evidence that has one.
  abbrev pub admitted : List WorkerReadinessEvidence → List WorkerReadinessEvidence
  admitted [] = []
  admitted (e ∷ es) = keep_if_none (exclusion_reasons r e) e (admitted es)

  abbrev pub refused : List WorkerReadinessEvidence → List WorkerReadinessEvidence
  refused [] = []
  refused (e ∷ es) = keep_if_some (exclusion_reasons r e) e (refused es)

abbrev pub evidence_of : Scored → WorkerReadinessEvidence
evidence_of s = s.evidence

module _ ⦃p : Interpreter⦄ ⦃f : Formats⦄ (r : WorkerSelectionRequest) where
  abbrev pub excluding : WorkerReadinessEvidence → WorkerSelectionExclusion
  excluding e = exclusion e (exclusion_reasons r e)

  abbrev pub Parts : List WorkerReadinessEvidence → Screened → Type 0
  Parts es s =
      (map evidence_of s.provisional ≡ admitted r es)
      × (s.exclusions ≡ map excluding (refused r es))

  screen_one-Parts :
      (policy : ScoringPolicy) (e : WorkerReadinessEvidence) (es : List WorkerReadinessEvidence)
      (reasons : List String) (rest : Result _ Screened) {s : Screened}
      → exclusion_reasons r e ≡ reasons
      → ((t : Screened) → rest ≡ ok t → Parts es t)
      → screen_one policy e reasons rest ≡ ok s
      → Parts (e ∷ es) s
  unfolding screen_one
  screen_one-Parts policy e es [] rest q parts h =
      let (cs, scored, h1) =
        >>=-eq-ok (score_components e.scores e.evidence_references policy) _ h in
      let (t, screened, h2) = >>=-eq-ok rest _ h1 in
      let (kept, left) = parts t screened in
      rw (sym (ok-injective h2), q) (ap (λ l. e ∷ l) kept, left)
  screen_one-Parts policy e es (reason ∷ reasons) rest q parts h =
      let (t, screened, h2) = >>=-eq-ok rest _ h in
      let (kept, left) = parts t screened in
      rw (sym (ok-injective h2), q) (kept, ap₂ (λ x l. x ∷ l) (ap (exclusion e) (sym q)) left)

  pub screen-Parts :
      (policy : ScoringPolicy) (es : List WorkerReadinessEvidence) {s : Screened}
      → screen r policy es ≡ ok s
      → Parts es s
  unfolding screen
  screen-Parts policy [] h = rw (sym (ok-injective h)) (refl, refl)
  screen-Parts policy (e ∷ es) h =
      screen_one-Parts policy e es (exclusion_reasons r e) (screen r policy es) refl
        (λ t k. screen-Parts policy es k) h

  ranked-worker_id :
      (n : ℕ) (ss : List Scored)
      → map (λ (c : WorkerSelectionCandidate). c.worker_id) (ranked r n ss)
        ≡ map (λ (e : WorkerReadinessEvidence). e.worker_id) (map evidence_of ss)
  unfolding ranked candidate
  ranked-worker_id n [] = refl
  ranked-worker_id n (s ∷ ss) = ap (λ l. s.evidence.worker_id ∷ l) (ranked-worker_id (n + 1) ss)

  abbrev Divides : WorkerSelection → Type 0
  Divides s =
      Permᴰ (map (λ (c : WorkerSelectionCandidate). c.worker_id) s.candidates)
        (map (λ (e : WorkerReadinessEvidence). e.worker_id) (admitted r r.readiness))
      × (s.excluded_workers ≡ map excluding (refused r r.readiness))

  -- The workers of the candidates are, rearranged, those of the readiness evidence that has no reason
  -- against it; the exclusions are those of the evidence that has a reason, in its order, each with
  -- all its reasons.
  pub evaluate-admitted :
      (version : ℕ) {s : WorkerSelection}
      → evaluate r version ≡ ok s
      → Permᴰ
          (map (λ (c : WorkerSelectionCandidate). c.worker_id) s.candidates)
          (map (λ (e : WorkerReadinessEvidence). e.worker_id) (admitted r r.readiness))
        × (s.excluded_workers ≡ map excluding (refused r r.readiness))
  unfolding selection_of
  evaluate-admitted version h =
      let e = evaluate-Evaluated r version h in
      let scored = e.screened.provisional in
      let (kept, left) = screen-Parts e.policy r.readiness e.screening in
      let same = ap (map (λ (e : WorkerReadinessEvidence). e.worker_id)) kept in
      subst Divides (sym e.selection) (
        rw (ranked-worker_id 1 (sorted_by ranks_before scored), sym same)
            (Permᴰ.map _ (Permᴰ.map evidence_of (sorted_by-Permᴰ ranks_before scored))),
        left,
      )
