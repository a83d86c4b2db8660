-- ===== src/Dispatch/Policy.antt =====
-- app/runtime/dispatch_decision/policy.py: the registered policy, its lookup and its outcome.
pub mod Outcomes
use edgeiq.Base.{
  String, Bool, true, false, not, ◌&&◌, ◌||◌, any, List, [], ◌∷◌, ◌++◌, Result, ok, err, ◌>>=◌,
  ◌>>◌, guard, ◌==◌, text_eq, if◌then◌else◌,
}
use edgeiq.Base.Sorting.{sorted_by}
use edgeiq.Platform.{
  Interpreter, before, text, array, texts, document, canonical_content, namespaced_digest, text_le,
}
use edgeiq.Dispatch.Domain.{
  DispatchDecisionError, invalid, digest_mismatch, version_unsupported, DispatchRequest,
  DispatchDecisionOutcome, approved, denied,
}
use edgeiq.Dispatch.Evidence.{
  RetainedPlanEvidence, RetainedReadinessEvidence, RetainedSelectionCandidate,
  RetainedSelectionEvidence, RetainedLeaseEvidence,
}

abbrev policy_namespace : String
policy_namespace = "edgeiq.dispatch-policy.v1"

pub record VerifiedDispatchEvidence : Type 0 where
  pub request : DispatchRequest
  pub plan : RetainedPlanEvidence
  pub selection : RetainedSelectionEvidence
  pub candidate : RetainedSelectionCandidate
  pub readiness : List RetainedReadinessEvidence
  pub lease : RetainedLeaseEvidence

pub record RegisteredDispatchPolicy : Type 0 where
  pub policy_id : String
  pub policy_version : String
  pub canonical_digest : String

abbrev pub when : Bool → String → List String
when true reason = reason ∷ []
when false reason = []

abbrev pub denial_reasons : VerifiedDispatchEvidence → List String
denial_reasons e =
    let instant = e.request.effective_at in
    when (not e.lease.bounded_permission || before instant e.lease.effective_at)
      "LEASE_INAPPLICABLE"
    ++ (when (before e.lease.expires_at instant) "LEASE_EXPIRED"
        ++ (when e.lease.revoked "LEASE_REVOKED"
            ++ (when
                  (any (λ (r : RetainedReadinessEvidence). before r.expires_at instant) e.readiness)
                  "READINESS_EXPIRED"
                ++ when (any (λ (r : RetainedReadinessEvidence). r.superseded) e.readiness)
                    "READINESS_SUPERSEDED")))

abbrev pub decided : List String → DispatchDecisionOutcome × List String
decided [] = (approved, "OFFER_APPROVED" ∷ [])
decided (reason ∷ reasons) = (denied, sorted_by text_le (reason ∷ reasons))

-- `RegisteredDispatchPolicy.evaluate`, which reads the evidence alone.
unfoldable pub evaluate : VerifiedDispatchEvidence → DispatchDecisionOutcome × List String
evaluate e = decided (denial_reasons e)

abbrev evaluation_rules : List String
evaluation_rules =
    "bounded_lease" ∷ "lease_effective_time" ∷ "lease_expiry" ∷ "lease_revocation"
    ∷ "readiness_expiry" ∷ "readiness_supersession" ∷ []

module _ ⦃p : Interpreter⦄ where
  -- `_policy`.
  unfoldable pub registered_policy :
      String → String → Result DispatchDecisionError RegisteredDispatchPolicy
  registered_policy policy_id policy_version = do
    content ← canonical_content invalid (
        document (
          ("evaluation_rules", array (texts evaluation_rules))
          ∷ ("policy_id", text policy_id)
          ∷ ("policy_version", text policy_version)
          ∷ []))
    ok (record {
      policy_id = policy_id;
      policy_version = policy_version;
      canonical_digest = namespaced_digest policy_namespace content;
    })

  unfoldable pub policy_registry : Result DispatchDecisionError (List RegisteredDispatchPolicy)
  unfolding registered_policy
  policy_registry = do
    dispatch_policy_v1 ← registered_policy "dispatch-policy" "dispatch-policy.v1"
    ok (dispatch_policy_v1 ∷ [])

  abbrev matching : String → String → List RegisteredDispatchPolicy → List RegisteredDispatchPolicy
  matching policy_id policy_version [] = []
  matching policy_id policy_version (q ∷ qs) =
      let rest = matching policy_id policy_version qs in
      if q.policy_id == policy_id && q.policy_version == policy_version then q ∷ rest else rest

  abbrev only :
      String → List RegisteredDispatchPolicy → Result DispatchDecisionError RegisteredDispatchPolicy
  only digest (q ∷ []) = do guard (q.canonical_digest == digest) digest_mismatch; ok q
  only digest _ = err version_unsupported

  unfoldable pub policy_for :
      String → String → String → Result DispatchDecisionError RegisteredDispatchPolicy
  unfolding policy_registry
  policy_for policy_id policy_version canonical_digest = do
    registry ← policy_registry
    only canonical_digest (matching policy_id policy_version registry)
