-- ===== src/Dispatch/Resolve.antt =====
-- `DispatchDecisionService._resolve` of app/runtime/dispatch_decision/service.py, with the sources.
pub mod Verified
pub mod Stable
pub mod Steps
use edgeiq.Base.{
  String, Bool, true, ◌&&◌, any, List, [], ◌∷◌, Result, ok, err, ◌>>=◌, ◌>>◌, guard, ◌==◌, text_eq,
  Dict, if◌then◌else◌,
}
use edgeiq.Platform.{Interpreter, EvidenceReference, require_evidence}
use edgeiq.Dispatch.Domain.{
  DispatchDecisionError, invalid, evidence_missing, digest_mismatch, DispatchRequest,
}
use edgeiq.Dispatch.Evidence.{
  RetainedPlanEvidence, RetainedReadinessEvidence, RetainedSelectionCandidate,
  RetainedSelectionEvidence, RetainedLeaseEvidence, plan_source, selection_source, readiness_source,
  lease_source,
}
use edgeiq.Dispatch.Policy.{VerifiedDispatchEvidence, RegisteredDispatchPolicy, policy_for}

pub record Sources : Type 0 where
  pub plans : Dict String RetainedPlanEvidence
  pub selections : Dict String RetainedSelectionEvidence
  pub readiness : Dict String RetainedReadinessEvidence
  pub leases : Dict String RetainedLeaseEvidence

-- `item in items`.
abbrev pub member : String → List String → Bool
member item ids = any (λ i. item == i) ids

abbrev matching : String → List RetainedSelectionCandidate → List RetainedSelectionCandidate
matching id [] = []
matching id (c ∷ cs) = let rest = matching id cs in if c.candidate_id == id then c ∷ rest else rest

abbrev only :
    List RetainedSelectionCandidate → Result DispatchDecisionError RetainedSelectionCandidate
only (c ∷ []) = ok c
only _ = err invalid

unfoldable pub selected_candidate :
    String → RetainedSelectionEvidence → Result DispatchDecisionError RetainedSelectionCandidate
selected_candidate id selection = only (matching id selection.candidates)

-- The checks of the plan, the selection and the lease, up to the candidate.
unfoldable pub reference_checks :
    DispatchRequest
    → RetainedPlanEvidence
    → RetainedSelectionEvidence
    → RetainedLeaseEvidence
    → Result DispatchDecisionError (Unit {0})
reference_checks request plan selection lease = do
  guard (plan.canonical_digest == request.plan_digest) digest_mismatch
  guard (selection.canonical_digest == request.selection_digest) digest_mismatch
  guard (lease.canonical_digest == request.lease_digest) digest_mismatch
  guard (member request.work_item_id plan.work_item_ids) invalid
  guard
      (selection.plan_reference.artifact_id == plan.plan_id
        && selection.plan_reference.canonical_digest == plan.canonical_digest)
      invalid

module _ ⦃p : Interpreter⦄ where
  unfoldable pub require_readiness :
      Dict String RetainedReadinessEvidence
      → DispatchRequest
      → List EvidenceReference
      → Result DispatchDecisionError (List RetainedReadinessEvidence)
  require_readiness readiness request [] = ok []
  require_readiness readiness request (reference ∷ references) = do
    retained ←
        require_evidence readiness_source evidence_missing readiness reference.artifact_id
          request.organization_id request.workload_context_id
    guard (retained.canonical_digest == reference.canonical_digest) digest_mismatch
    rest ← require_readiness readiness request references
    ok (retained ∷ rest)

  unfoldable pub resolve :
      Sources
      → DispatchRequest
      → Result DispatchDecisionError (VerifiedDispatchEvidence × RegisteredDispatchPolicy)
  unfolding require_readiness reference_checks
  resolve sources request = do
    plan ←
        require_evidence plan_source evidence_missing sources.plans request.plan_id
          request.organization_id request.workload_context_id
    selection ←
        require_evidence selection_source evidence_missing sources.selections request.selection_id
          request.organization_id request.workload_context_id
    lease ←
        require_evidence lease_source evidence_missing sources.leases request.lease_id
          request.organization_id request.workload_context_id
    reference_checks request plan selection lease
    candidate ← selected_candidate request.selected_candidate_id selection
    guard (selection.evaluation_boundary == request.evaluation_boundary) invalid
    readiness ← require_readiness sources.readiness request candidate.readiness_references
    guard (lease.plan_id == plan.plan_id) invalid
    guard (member request.work_item_id lease.work_item_ids) invalid
    policy ←
        policy_for request.dispatch_policy_id request.dispatch_policy_version
          request.dispatch_policy_digest
    ok (
      record {
        request = request;
        plan = plan;
        selection = selection;
        candidate = candidate;
        readiness = readiness;
        lease = lease;
      },
      policy,
    )
