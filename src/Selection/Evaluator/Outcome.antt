-- ===== src/Selection/Evaluator/Outcome.antt =====
-- `_outcome`, on the candidates and the reasons of all exclusions.
use edgeiq.Base.{
  String, Bool, true, false, not, ◌&&◌, ◌||◌, List, [], ◌∷◌, ◌++◌, ◌==◌, text_eq, all, any,
  if◌then◌else◌,
}
use edgeiq.Selection.Domain.{
  SelectionOutcome, candidate_found, no_eligible_workers, policy_filtered, evidence_unavailable,
  indeterminate, WorkerSelectionExclusion,
}

-- `exclusion_categories`.
abbrev pub categories : List WorkerSelectionExclusion → List String
categories [] = []
categories (x ∷ xs) = x.reason_codes ++ categories xs

abbrev pub is_empty {ℓ} : {A : Type ℓ} → List A → Bool
is_empty [] = true
is_empty (x ∷ xs) = false

abbrev unavailable : String → Bool
unavailable reason =
    reason == "ORGANIZATION_OR_WORKLOAD_MISMATCH"
    || reason == "REQUIRED_EVIDENCE_INVALID"
    || reason == "READINESS_VERSION_UNSUPPORTED"
    || reason == "READINESS_EXPIRED"
    || reason == "REQUIRED_CAPABILITY_MISSING"

unfoldable pub selection_outcome {ℓ} : {A : Type ℓ} → List A → List String → SelectionOutcome
selection_outcome candidates reasons =
    if not (is_empty candidates)
    then candidate_found
    else if any (λ r. r == "CONTRADICTORY_EVIDENCE") reasons
    then indeterminate
    else if any (λ r. r == "HARD_POLICY_EVIDENCE_UNAVAILABLE") reasons
    then evidence_unavailable
    else if not (is_empty reasons) && all (λ r. r == "HARD_POLICY_FILTERED") reasons
    then policy_filtered
    else if any unavailable reasons
    then evidence_unavailable
    else no_eligible_workers
