-- ===== src/Lease/Resolve/Authority.antt =====
-- What the evidence of an admitted lease request authorizes.
use edgeiq.Base.{
  ◌≤◌, ◌<◌, String, ◌≡◌, true, Option, none, some, ok, arith, >>=-eq-ok, ok-injective, ap, sym, ◌∙◌,
  Dict,
}
use edgeiq.Platform.{DateTime, Interpreter, instant, require_evidence}
use edgeiq.Lease.Domain.{
  evidence_unavailable, ExecutionLeaseRequest, ExecutionLeaseRecord, permitted,
}
use edgeiq.Lease.Evidence.{
  RetainedAuthorizationEvidence, OpaqueRetainedRevocationEvidence, authorization_source,
}
use edgeiq.Lease.Policy.{policy_for}
use edgeiq.Lease.Resolve.{
  Sources, Resolved, authorization_checks, resolve_authorization, resolve_revocation,
  revocation_checks, resolve,
}

-- The lease ends, and not after `t`.
abbrev pub EndsBy : DateTime → Option DateTime → Type 0
EndsBy t none = ⊥
EndsBy t (some expires) = instant expires ≤ instant t

-- The authority of `a` over the request.
pub record Authorizes (a : RetainedAuthorizationEvidence) (request : ExecutionLeaseRequest)
    : Type 0 where
  pub approved : a.approved ≡ true
  pub item : (a.plan_id ≡ request.plan_id) × (a.work_item_id ≡ request.work_item_id)
  pub within : permitted request.requested_permissions a.permission_ceiling ≡ true
  pub begun : instant a.effective_at ≤ instant request.evaluation_at
  pub running : instant request.evaluation_at < instant a.expires_at
  pub starts : instant a.effective_at ≤ instant request.effective_at
  pub ends : EndsBy a.expires_at request.expires_at

checked-Authorizes :
    (request : ExecutionLeaseRequest) (a : RetainedAuthorizationEvidence)
    → authorization_checks request a ≡ ok tt
    → Authorizes a request
unfolding authorization_checks
checked-Authorizes request a h = ground arith

module _ ⦃p : Interpreter⦄ (sources : Sources) (by_id : Dict String ExecutionLeaseRecord)
    (request : ExecutionLeaseRequest) where
  revocation_closed :
      (id : String) {r : Option OpaqueRetainedRevocationEvidence}
      → ¬ (resolve_revocation sources by_id request (some id) ≡ ok r)
  unfolding resolve_revocation revocation_checks
  revocation_closed id h = ground arith

  -- No request that names revocation evidence is resolved, whatever the evidence and the repository
  -- hold: revocation fails closed.
  pub revocation_refused :
      (id : String) {e : Resolved}
      → request.revocation_evidence_id ≡ some id
      → ¬ (resolve sources by_id request ≡ ok e)
  unfolding resolve
  revocation_refused id named h =
      let (a, authorized, h1) =
        >>=-eq-ok (resolve_authorization sources request request.authorization_evidence_id) _ h in
      let (r, revoked, h2) =
        >>=-eq-ok (resolve_revocation sources by_id request request.revocation_evidence_id) _ h1 in
      revocation_closed id (sym (ap (resolve_revocation sources by_id request) named) ∙ revoked)

  found_authorization :
      (id : String) {a : Option RetainedAuthorizationEvidence}
      → resolve_authorization sources request (some id) ≡ ok a
      → (found : RetainedAuthorizationEvidence) × (a ≡ some found) × Authorizes found request
  unfolding resolve_authorization
  found_authorization id h =
      let (found, retained, h1) =
        >>=-eq-ok
          (require_evidence authorization_source evidence_unavailable sources.authorizations id
            request.organization_id request.workload_context_id)
          _ h in
      let (_, passed, h2) = >>=-eq-ok (authorization_checks request found) _ h1 in
      (found, sym (ok-injective h2), checked-Authorizes request found passed)

  -- A resolved request that names an authorization has one that is approved, is for its work item,
  -- permits all that it asks for, applies at its evaluation time, and covers the lease's time.
  pub resolve-Authorizes :
      (id : String) {e : Resolved}
      → request.authorization_evidence_id ≡ some id
      → resolve sources by_id request ≡ ok e
      → (a : RetainedAuthorizationEvidence) × (e.authorization ≡ some a) × Authorizes a request
  unfolding resolve
  resolve-Authorizes id named h =
      let (a, authorized, h1) =
        >>=-eq-ok (resolve_authorization sources request request.authorization_evidence_id) _ h in
      let (r, revoked, h2) =
        >>=-eq-ok (resolve_revocation sources by_id request request.revocation_evidence_id) _ h1 in
      let (policy, registered, h3) =
        >>=-eq-ok
          (policy_for request.lease_policy_id request.lease_policy_version
            request.lease_policy_digest)
          _ h2 in
      let (found, held, authority) =
        found_authorization id
          (sym (ap (resolve_authorization sources request) named) ∙ authorized) in
      (found, sym (ap (λ (t : Resolved). t.authorization) (ok-injective h3)) ∙ held, authority)
