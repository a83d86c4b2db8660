-- ===== src/Dispatch/Resolve/Steps.antt =====
-- The steps of `_resolve`, each of which returned.
use edgeiq.Base.{◌≡◌, refl, ok, guard, >>=-eq-ok, ok-injective, sym, ap, subst, ◌==◌, text_eq}
use edgeiq.Platform.{Interpreter, require_evidence}
use edgeiq.Dispatch.Domain.{DispatchRequest, evidence_missing, invalid}
use edgeiq.Dispatch.Evidence.{plan_source, selection_source, lease_source}
use edgeiq.Dispatch.Policy.{VerifiedDispatchEvidence, RegisteredDispatchPolicy, policy_for}
use edgeiq.Dispatch.Resolve.{
  Sources, member, selected_candidate, reference_checks, require_readiness, resolve,
}

module _ ⦃p : Interpreter⦄ (sources : Sources) (request : DispatchRequest) where
  pub record Steps (e : VerifiedDispatchEvidence) (policy : RegisteredDispatchPolicy) : Type 0 where
    pub same_request : e.request ≡ request
    pub plan :
        require_evidence plan_source evidence_missing sources.plans request.plan_id
          request.organization_id request.workload_context_id
        ≡ ok e.plan
    pub selection :
        require_evidence selection_source evidence_missing sources.selections request.selection_id
          request.organization_id request.workload_context_id
        ≡ ok e.selection
    pub lease :
        require_evidence lease_source evidence_missing sources.leases request.lease_id
          request.organization_id request.workload_context_id
        ≡ ok e.lease
    pub checks : reference_checks request e.plan e.selection e.lease ≡ ok tt
    pub candidate : selected_candidate request.selected_candidate_id e.selection ≡ ok e.candidate
    pub boundary :
        guard (e.selection.evaluation_boundary == request.evaluation_boundary) invalid ≡ ok tt
    pub readiness :
        require_readiness sources.readiness request e.candidate.readiness_references
        ≡ ok e.readiness
    pub same_plan : guard (e.lease.plan_id == e.plan.plan_id) invalid ≡ ok tt
    pub leased : guard (member request.work_item_id e.lease.work_item_ids) invalid ≡ ok tt
    pub registered :
        policy_for request.dispatch_policy_id request.dispatch_policy_version
          request.dispatch_policy_digest
        ≡ ok policy

  pub Steps-resolve :
      (e : VerifiedDispatchEvidence) (policy : RegisteredDispatchPolicy)
      → Steps e policy
      → resolve sources request ≡ ok (e, policy)
  unfolding resolve
  Steps-resolve e policy s =
      rw
        (
          s.plan, s.selection, s.lease, s.checks, s.candidate, s.boundary, s.readiness, s.same_plan,
          s.leased, s.registered,
        )
        (ap (λ r. ok (record e { request = r }, policy)) (sym s.same_request))

  pub resolve-Steps :
      {e : VerifiedDispatchEvidence} {policy : RegisteredDispatchPolicy}
      → resolve sources request ≡ ok (e, policy)
      → Steps e policy
  unfolding resolve
  resolve-Steps h =
      let (plan, a1, h1) =
        >>=-eq-ok
          (require_evidence plan_source evidence_missing sources.plans request.plan_id
            request.organization_id request.workload_context_id)
          _ h in
      let (selection, a2, h2) =
        >>=-eq-ok
          (require_evidence selection_source evidence_missing sources.selections
            request.selection_id request.organization_id request.workload_context_id)
          _ h1 in
      let (lease, a3, h3) =
        >>=-eq-ok
          (require_evidence lease_source evidence_missing sources.leases request.lease_id
            request.organization_id request.workload_context_id)
          _ h2 in
      let (u4, a4, h4) = >>=-eq-ok (reference_checks request plan selection lease) _ h3 in
      let (candidate, a5, h5) =
        >>=-eq-ok (selected_candidate request.selected_candidate_id selection) _ h4 in
      let (u6, a6, h6) =
        >>=-eq-ok (guard (selection.evaluation_boundary == request.evaluation_boundary) invalid) _
          h5 in
      let (readiness, a7, h7) =
        >>=-eq-ok (require_readiness sources.readiness request candidate.readiness_references) _
          h6 in
      let (u8, a8, h8) = >>=-eq-ok (guard (lease.plan_id == plan.plan_id) invalid) _ h7 in
      let (u9, a9, h9) =
        >>=-eq-ok (guard (member request.work_item_id lease.work_item_ids) invalid) _ h8 in
      let (policy, a10, h10) =
        >>=-eq-ok
          (policy_for request.dispatch_policy_id request.dispatch_policy_version
            request.dispatch_policy_digest)
          _ h9 in
      subst (λ (w : VerifiedDispatchEvidence × RegisteredDispatchPolicy). Steps w.0 w.1)
        (ok-injective h10)
        (record {
          same_request = refl;
          plan = a1;
          selection = a2;
          lease = a3;
          checks = a4;
          candidate = a5;
          boundary = a6;
          readiness = a7;
          same_plan = a8;
          leased = a9;
          registered = a10;
        })
