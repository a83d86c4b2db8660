-- ===== src/Lease/Resolve.antt =====
-- `_resolve` of app/runtime/execution_lease/service.py: the evidence that a request names.
pub mod Authority
use edgeiq.Base.{
  ℕ, String, Bool, true, false, not, ◌&&◌, Option, none, some, Result, ok, err, ◌>>=◌, ◌>>◌, guard,
  ◌==◌, text_eq, Dict,
}
use edgeiq.Platform.{DateTime, datetime_eq, Interpreter, before, at_most, require_evidence}
use edgeiq.Lease.Domain.{
  ExecutionLeaseError, invalid, evidence_unavailable, digest_mismatch, illegal_transition,
  ExecutionLeaseRequest, ExecutionLeaseRecord, permitted,
}
use edgeiq.Lease.Evidence.{
  RetainedAuthorizationEvidence, OpaqueRetainedRevocationEvidence, authorization_source,
  revocation_source,
}
use edgeiq.Lease.Policy.{RegisteredExecutionLeasePolicy, policy_for}
use edgeiq.Lease.State.{option_text_eq}

pub record Sources : Type 0 where
  pub authorizations : Dict String RetainedAuthorizationEvidence
  pub revocations : Dict String OpaqueRetainedRevocationEvidence

pub record Resolved : Type 0 where
  pub authorization : Option RetainedAuthorizationEvidence
  pub revocation : Option OpaqueRetainedRevocationEvidence
  pub policy : RegisteredExecutionLeasePolicy

-- `expires_at is None or expires_at > limit` does not hold.
abbrev ends_by : DateTime → Option DateTime → Bool
ends_by limit none = false
ends_by limit (some expires) = at_most expires limit

-- The tests of the authorization that the source returned.
unfoldable pub authorization_checks :
    ExecutionLeaseRequest → RetainedAuthorizationEvidence → Result ExecutionLeaseError (Unit {0})
authorization_checks request a = do
  guard (request.authorization_evidence_digest == some a.canonical_digest) digest_mismatch
  guard a.approved invalid
  guard (a.plan_id == request.plan_id && a.work_item_id == request.work_item_id) invalid
  guard (request.authorization_history_boundary == some a.history_boundary) invalid
  guard (permitted request.requested_permissions a.permission_ceiling) invalid
  guard (at_most a.effective_at request.evaluation_at && before request.evaluation_at a.expires_at)
      invalid
  guard
      (not (before request.effective_at a.effective_at) && ends_by a.expires_at request.expires_at)
      invalid

-- `prior is not None and prior.event.lease_id == lease`.
abbrev targets : Option ExecutionLeaseRecord → String → Bool
targets none lease = false
targets (some prior) lease = prior.event.lease_id == lease

-- `repository.record(prior_event_id)`.
abbrev prior_record : Dict String ExecutionLeaseRecord → Option String → Option ExecutionLeaseRecord
prior_record by_id none = none
prior_record by_id (some id) = by_id id

-- The tests of the revocation that the source returned; the last line is reached by an intact one.
revocation_checks :
    Dict String ExecutionLeaseRecord
    → ExecutionLeaseRequest
    → OpaqueRetainedRevocationEvidence
    → Result ExecutionLeaseError (Option OpaqueRetainedRevocationEvidence)
revocation_checks by_id request v = do
  guard (request.revocation_evidence_digest == some v.canonical_digest) digest_mismatch
  guard
      (v.plan_id == request.plan_id
        && v.work_item_id == request.work_item_id
        && v.permission_family == request.permission_family)
      invalid
  guard (v.effective_at == request.effective_at) invalid
  guard (request.prior_event_id == some v.target_event_id) invalid
  guard (targets (prior_record by_id request.prior_event_id) v.target_lease_id) invalid
  err illegal_transition

module _ ⦃p : Interpreter⦄ where
  unfoldable pub resolve_authorization :
      Sources
      → ExecutionLeaseRequest
      → Option String
      → Result ExecutionLeaseError (Option RetainedAuthorizationEvidence)
  resolve_authorization sources request none = ok none
  resolve_authorization sources request (some id) = do
    a ←
        require_evidence authorization_source evidence_unavailable sources.authorizations id
          request.organization_id request.workload_context_id
    authorization_checks request a
    ok (some a)

  unfoldable pub resolve_revocation :
      Sources
      → Dict String ExecutionLeaseRecord
      → ExecutionLeaseRequest
      → Option String
      → Result ExecutionLeaseError (Option OpaqueRetainedRevocationEvidence)
  unfolding revocation_checks
  resolve_revocation sources by_id request none = ok none
  resolve_revocation sources by_id request (some id) = do
    v ←
        require_evidence revocation_source evidence_unavailable sources.revocations id
          request.organization_id request.workload_context_id
    revocation_checks by_id request v

  -- The repository is read at its index of event identities.
  unfoldable pub resolve :
      Sources
      → Dict String ExecutionLeaseRecord
      → ExecutionLeaseRequest
      → Result ExecutionLeaseError Resolved
  resolve sources by_id request = do
    authorization ← resolve_authorization sources request request.authorization_evidence_id
    revocation ← resolve_revocation sources by_id request request.revocation_evidence_id
    policy ←
        policy_for request.lease_policy_id request.lease_policy_version request.lease_policy_digest
    ok (record { authorization = authorization; revocation = revocation; policy = policy })
