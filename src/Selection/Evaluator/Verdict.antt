-- ===== src/Selection/Evaluator/Verdict.antt =====
-- When the evaluation finds a candidate, and what it answers else.
use edgeiq.Base.{
  ℕ, ◌≡◌, refl, ◌↔◌, String, Bool, true, false, List, [], ◌∷◌, ◌==◌, text_eq, sym, ap, ◌∙◌, arith,
  All, In, all, any, map, subst, Bool-cases, inl, inr, ==→≡, ok,
}
use edgeiq.Base.Sorting.{sorted_by, insert_by}
use edgeiq.Platform.{Interpreter}
use edgeiq.Selection.Domain.{
  Formats, WorkerReadinessEvidence, WorkerSelectionRequest, WorkerSelection, candidate_found,
  policy_filtered, indeterminate,
}
use edgeiq.Selection.Policy.{ScoringPolicy}
use edgeiq.Selection.Evaluator.{
  screen, Scored, Screened, exclusion_reasons, ranks_before, ranked, selection_of, evaluate,
  is_empty, categories, selection_outcome,
}
use edgeiq.Selection.Evaluator.Eligibility.{Eligible, exclusion_reasons-Eligible}
use edgeiq.Selection.Evaluator.Ordering.{evaluate-Evaluated}
use edgeiq.Selection.Evaluator.Partition.{admitted, evidence_of, screen-Parts}

-- Some worker of the list is eligible.
abbrev pub AnyEligible : WorkerSelectionRequest → List WorkerReadinessEvidence → Type 0
AnyEligible r es = (e : WorkerReadinessEvidence) × In e es × Eligible r e

module _ (r : WorkerSelectionRequest) where
  admitted_step :
      (l : List String) (e : WorkerReadinessEvidence) (es : List WorkerReadinessEvidence)
      → exclusion_reasons r e ≡ l
      → (is_empty (admitted r es) ≡ false → AnyEligible r es)
      → is_empty (admitted r (e ∷ es)) ≡ false
      → AnyEligible r (e ∷ es)
  admitted_step [] e es q later h = (e, In.here refl, (exclusion_reasons-Eligible r e).0 q)
  admitted_step (x ∷ xs) e es q later h =
      let (d, place, fit) = later (ground (arith, q)) in (d, In.there place, fit)

  admitted-AnyEligible :
      (es : List WorkerReadinessEvidence) → is_empty (admitted r es) ≡ false → AnyEligible r es
  admitted-AnyEligible [] h = cc
  admitted-AnyEligible (e ∷ es) h =
      admitted_step (exclusion_reasons r e) e es refl (admitted-AnyEligible es) h

  AnyEligible-admitted :
      (e : WorkerReadinessEvidence) (es : List WorkerReadinessEvidence)
      → In e es
      → Eligible r e
      → is_empty (admitted r es) ≡ false
  AnyEligible-admitted e [] i h = elim i [ ]
  AnyEligible-admitted e (d ∷ es) (In.here same) h =
      ground (arith, ap (exclusion_reasons r) same, (exclusion_reasons-Eligible r e).1 h)
  AnyEligible-admitted e (d ∷ es) (In.there i) h = ground (arith, AnyEligible-admitted e es i h)

is_empty-insert_by :
    (s : Scored) (ss : List Scored) → is_empty (insert_by ranks_before s ss) ≡ false
unfolding insert_by
is_empty-insert_by s [] = refl
is_empty-insert_by s (t ∷ ts) = ground arith

is_empty-sorted_by : (ss : List Scored) → is_empty (sorted_by ranks_before ss) ≡ is_empty ss
unfolding sorted_by
is_empty-sorted_by [] = refl
is_empty-sorted_by (s ∷ ss) = is_empty-insert_by s (sorted_by ranks_before ss)

is_empty-evidence : (ss : List Scored) → is_empty (map evidence_of ss) ≡ is_empty ss
is_empty-evidence [] = refl
is_empty-evidence (s ∷ ss) = refl

found : (c : String) (l : List String) → any (λ k. k == c) l ≡ true → In c l
found c [] h = cc
found c (k ∷ l) h = elim (Bool-cases (k == c)) [
  | inl same ↦ In.here (sym (==→≡ k c same))
  | inr other ↦ In.there (found c l (ground (arith, other)))
]

listed : (c : String) (l : List String) → In c l → any (λ k. k == c) l ≡ true
listed c [] i = elim i [ ]
listed c (k ∷ l) (In.here e) = ground (arith, e)
listed c (k ∷ l) (In.there i) = ground (arith, listed c l i)

others :
    (c d : String) (l : List String)
    → ¬ (c ≡ d)
    → all (λ k. k == c) l ≡ true
    → any (λ k. k == d) l ≡ false
others c d [] apart h = refl
others c d (k ∷ l) apart h = ground (arith, others c d l apart (ground arith))

all-All : (c : String) (l : List String) → all (λ k. k == c) l ≡ true ↔ All (λ k. k ≡ c) l
all-All c [] = (λ h. tt, λ h. refl)
all-All c (k ∷ l) = (
  λ h. (==→≡ k c (ground arith), (all-All c l).0 (ground arith)),
  λ h. ground (arith, (all-All c l).1 h.1, h.0),
)

module _ ⦃p : Interpreter⦄ ⦃f : Formats⦄ (r : WorkerSelectionRequest) where
  is_empty-ranked : (ss : List Scored) → is_empty (ranked r 1 ss) ≡ is_empty ss
  unfolding ranked
  is_empty-ranked [] = refl
  is_empty-ranked (s ∷ ss) = refl

module _ {ℓ} {A : Type ℓ} (cs : List A) (reasons : List String) where
  candidate_found_lem : selection_outcome cs reasons ≡ candidate_found ↔ is_empty cs ≡ false
  unfolding selection_outcome
  candidate_found_lem = (λ h. ground arith, λ h. ground arith)

  indeterminate_lem :
      selection_outcome cs reasons ≡ indeterminate
      ↔ (is_empty cs ≡ true) × In "CONTRADICTORY_EVIDENCE" reasons
  unfolding selection_outcome
  indeterminate_lem = (
    λ h. (ground arith, found "CONTRADICTORY_EVIDENCE" reasons (ground arith)),
    λ h. ground (arith, listed "CONTRADICTORY_EVIDENCE" reasons h.1, h.0),
  )

  policy_filtered_lem :
      selection_outcome cs reasons ≡ policy_filtered
      ↔ (is_empty cs ≡ true)
        × (is_empty reasons ≡ false)
        × All (λ k. k ≡ "HARD_POLICY_FILTERED") reasons
  unfolding selection_outcome
  policy_filtered_lem =
      let filtered = all-All "HARD_POLICY_FILTERED" reasons in
      (
        λ h. (ground arith, ground arith, filtered.0 (ground arith)),
        λ h. ground (
          arith,
          h.0,
          h.1,
          filtered.1 h.2,
          others "HARD_POLICY_FILTERED" "CONTRADICTORY_EVIDENCE" reasons (λ e. cc) (filtered.1 h.2),
          others "HARD_POLICY_FILTERED" "HARD_POLICY_EVIDENCE_UNAVAILABLE" reasons (λ e. cc)
              (filtered.1 h.2),
        ),
      )

module _ ⦃p : Interpreter⦄ ⦃f : Formats⦄ (r : WorkerSelectionRequest) where
  abbrev Answers : WorkerSelection → Type 0
  Answers s =
      (s.outcome ≡ candidate_found ↔ AnyEligible r r.readiness)
      × (s.outcome ≡ indeterminate
          ↔ (¬ AnyEligible r r.readiness)
            × In "CONTRADICTORY_EVIDENCE" (categories s.excluded_workers))
      × (s.outcome ≡ policy_filtered
          ↔ (¬ AnyEligible r r.readiness)
            × (is_empty (categories s.excluded_workers) ≡ false)
            × All (λ reason. reason ≡ "HARD_POLICY_FILTERED") (categories s.excluded_workers))

  is_empty-candidates :
      (policy : ScoringPolicy) (t : Screened)
      → screen r policy r.readiness ≡ ok t
      → is_empty (ranked r 1 (sorted_by ranks_before t.provisional))
        ≡ is_empty (admitted r r.readiness)
  is_empty-candidates policy t h =
      is_empty-ranked r (sorted_by ranks_before t.provisional)
      ∙ is_empty-sorted_by t.provisional
      ∙ sym (is_empty-evidence t.provisional)
      ∙ ap is_empty (screen-Parts r policy r.readiness h).0

  found_lem :
      {none_found : Bool}
      → none_found ≡ is_empty (admitted r r.readiness)
      → none_found ≡ false ↔ AnyEligible r r.readiness
  found_lem e = (
    λ h. admitted-AnyEligible r r.readiness (sym e ∙ h),
    λ (w, place, fit). e ∙ AnyEligible-admitted r w r.readiness place fit,
  )

  unfound_lem :
      {none_found : Bool}
      → none_found ≡ is_empty (admitted r r.readiness)
      → none_found ≡ true ↔ ¬ AnyEligible r r.readiness
  unfound_lem {none_found} e =
      let yet = found_lem e in
      (
        λ h a. let no_one = yet.1 a in cc,
        λ h. elim (Bool-cases none_found) [ inl t ↦ t | inr k ↦ absurd (h (yet.0 k)) ],
      )

  -- A selection finds a candidate exactly when some worker is eligible. It is indeterminate exactly
  -- when none is and some exclusion has contradictory evidence; it is filtered by policy exactly when
  -- no worker is eligible, there is a reason, and each reason of each exclusion is the hard policy's: one
  -- worker that is excluded for another reason too, or only for another, prevents it.
  pub evaluate-AnyEligible :
      (version : ℕ) {s : WorkerSelection}
      → evaluate r version ≡ ok s
      → (s.outcome ≡ candidate_found ↔ AnyEligible r r.readiness)
        × (s.outcome ≡ indeterminate
            ↔ (¬ AnyEligible r r.readiness)
              × In "CONTRADICTORY_EVIDENCE" (categories s.excluded_workers))
        × (s.outcome ≡ policy_filtered
            ↔ (¬ AnyEligible r r.readiness)
              × (is_empty (categories s.excluded_workers) ≡ false)
              × All (λ reason. reason ≡ "HARD_POLICY_FILTERED") (categories s.excluded_workers))
  unfolding selection_of
  evaluate-AnyEligible version h =
      let e = evaluate-Evaluated r version h in
      let cs = ranked r 1 (sorted_by ranks_before e.screened.provisional) in
      let reasons = categories e.screened.exclusions in
      let same = is_empty-candidates e.policy e.screened e.screening in
      let yes_found = found_lem same in
      let unfound = unfound_lem same in
      let (a, b) = candidate_found_lem cs reasons in
      let (c, d) = indeterminate_lem cs reasons in
      let (g, k) = policy_filtered_lem cs reasons in
      subst Answers (sym e.selection) (
        (λ o. yes_found.0 (a o), λ w. b (yes_found.1 w)),
        (λ o. (unfound.0 (c o).0, (c o).1), λ w. d (unfound.1 w.0, w.1)),
        (λ o. (unfound.0 (g o).0, (g o).1, (g o).2), λ w. k (unfound.1 w.0, w.1, w.2)),
      )
