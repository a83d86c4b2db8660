-- ===== src/Dispatch/Evidence/Types.antt =====
-- The dataclasses, their order, and the `__post_init__` of a candidate.
use edgeiq.Base.{
  String, Bool, true, false, not, ◌&&◌, any, List, [], ◌∷◌, Result, ok, ◌>>=◌, ◌>>◌, guard, Eq,
  ◌==◌, text_eq, String_discrete, if◌then◌else◌,
}
use edgeiq.Base.Sorting.{sorted_by}
use native.Mathlib.Decide.{ℕ_discrete}
use edgeiq.Platform.{
  Bytes, DateTime, DateTime_discrete, Interpreter, EvidenceReference, EvidenceReference_discrete,
  reference_eq, reference_le, required_text, text_le,
}
use edgeiq.Dispatch.Domain.{DispatchDecisionError, invalid}

pub record RetainedPlanEvidence : Type 0 where
  pub plan_id : String
  pub organization_id : String
  pub workload_context_id : String
  pub work_item_ids : List String
  pub schema_version : String
  pub planning_rule_version : String
  pub canonical_digest : String
  pub canonical_content : Bytes

pub record RetainedReadinessEvidence : Type 0 where
  pub readiness_id : String
  pub organization_id : String
  pub workload_context_id : String
  pub evaluated_at : DateTime
  pub expires_at : DateTime
  pub superseded : Bool
  pub schema_version : String
  pub canonical_digest : String
  pub canonical_content : Bytes

pub record RetainedSelectionCandidate : Type 0 where
  pub candidate_id : String
  pub readiness_references : List EvidenceReference

pub record RetainedSelectionEvidence : Type 0 where
  pub selection_id : String
  pub organization_id : String
  pub workload_context_id : String
  pub plan_reference : EvidenceReference
  pub candidates : List RetainedSelectionCandidate
  pub evaluation_boundary : String
  pub schema_version : String
  pub selection_policy_version : String
  pub canonical_digest : String
  pub canonical_content : Bytes

pub record RetainedLeaseEvidence : Type 0 where
  pub lease_id : String
  pub organization_id : String
  pub workload_context_id : String
  pub plan_id : String
  pub work_item_ids : List String
  pub bounded_permission : Bool
  pub effective_at : DateTime
  pub expires_at : DateTime
  pub revoked : Bool
  pub causal_authorization_reference : EvidenceReference
  pub schema_version : String
  pub lease_policy_version : String
  pub canonical_digest : String
  pub canonical_content : Bytes

unfoldable pub RetainedPlanEvidence_discrete : Discrete RetainedPlanEvidence
RetainedPlanEvidence_discrete = hlevel (String_discrete, ℕ_discrete)

unfoldable pub RetainedReadinessEvidence_discrete : Discrete RetainedReadinessEvidence
RetainedReadinessEvidence_discrete = hlevel (String_discrete, ℕ_discrete, DateTime_discrete)

unfoldable pub RetainedSelectionEvidence_discrete : Discrete RetainedSelectionEvidence
RetainedSelectionEvidence_discrete =
    hlevel (String_discrete, ℕ_discrete, EvidenceReference_discrete)

unfoldable pub RetainedLeaseEvidence_discrete : Discrete RetainedLeaseEvidence
RetainedLeaseEvidence_discrete =
    hlevel (String_discrete, ℕ_discrete, DateTime_discrete, EvidenceReference_discrete)

instance abbrev pub plan_eq : Eq RetainedPlanEvidence
plan_eq = record { dec = RetainedPlanEvidence_discrete }

instance abbrev pub readiness_eq : Eq RetainedReadinessEvidence
readiness_eq = record { dec = RetainedReadinessEvidence_discrete }

instance abbrev pub selection_eq : Eq RetainedSelectionEvidence
selection_eq = record { dec = RetainedSelectionEvidence_discrete }

instance abbrev pub lease_eq : Eq RetainedLeaseEvidence
lease_eq = record { dec = RetainedLeaseEvidence_discrete }

-- Tuples are compared item by item.
references_le : List EvidenceReference → List EvidenceReference → Bool
references_le [] ys = true
references_le (x ∷ xs) [] = false
references_le (x ∷ xs) (y ∷ ys) =
    let rest = references_le xs ys in if x == y then rest else reference_le x y

-- `order=True`.
unfoldable pub candidate_le : RetainedSelectionCandidate → RetainedSelectionCandidate → Bool
unfolding references_le
candidate_le a b =
    if a.candidate_id == b.candidate_id
    then references_le a.readiness_references b.readiness_references
    else text_le a.candidate_id b.candidate_id

abbrev unique_references : List EvidenceReference → Bool
unique_references [] = true
unique_references (k ∷ ks) = not (any (λ j. k == j) ks) && unique_references ks

abbrev pub nonempty {ℓ} : {A : Type ℓ} → List A → Bool
nonempty [] = false
nonempty (x ∷ xs) = true

unfoldable pub selection_candidate :
    ⦃p : Interpreter⦄
    → RetainedSelectionCandidate
    → Result DispatchDecisionError RetainedSelectionCandidate
selection_candidate c = do
  candidate_id' ← required_text invalid c.candidate_id
  let references = sorted_by reference_le c.readiness_references
  guard (nonempty references && unique_references references) invalid
  ok (record { candidate_id = candidate_id'; readiness_references = references })
