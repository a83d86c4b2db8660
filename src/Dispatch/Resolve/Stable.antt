-- ===== src/Dispatch/Resolve/Stable.antt =====
-- What is resolved stays so when more evidence is retained.
use edgeiq.Base.{◌≡◌, List, [], ◌∷◌, ok, >>=-eq-ok, guard, ◌==◌, text_eq}
use edgeiq.Platform.{Interpreter, EvidenceReference, require_evidence}
use edgeiq.Platform.Evidence.Immutable.{Extends, Extends-refl, require_evidence-Extends}
use edgeiq.Dispatch.Domain.{DispatchRequest, evidence_missing, digest_mismatch}
use edgeiq.Dispatch.Evidence.{
  RetainedReadinessEvidence, plan_source, selection_source, readiness_source, lease_source,
}
use edgeiq.Dispatch.Policy.{VerifiedDispatchEvidence, RegisteredDispatchPolicy}
use edgeiq.Dispatch.Resolve.{Sources, require_readiness, resolve}
use edgeiq.Dispatch.Resolve.Steps.{resolve-Steps, Steps-resolve}

pub record SourcesExtend (a b : Sources) : Type 0 where
  pub plans : Extends a.plans b.plans
  pub selections : Extends a.selections b.selections
  pub readiness : Extends a.readiness b.readiness
  pub leases : Extends a.leases b.leases

pub SourcesExtend-refl : (a : Sources) → SourcesExtend a a
SourcesExtend-refl a = record {
  plans = Extends-refl a.plans;
  selections = Extends-refl a.selections;
  readiness = Extends-refl a.readiness;
  leases = Extends-refl a.leases;
}

module _ ⦃p : Interpreter⦄ (a b : Sources) (request : DispatchRequest) (x : SourcesExtend a b) where
  require_readiness-Extends :
      (references : List EvidenceReference) {rs : List RetainedReadinessEvidence}
      → require_readiness a.readiness request references ≡ ok rs
      → require_readiness b.readiness request references ≡ ok rs
  unfolding require_readiness
  require_readiness-Extends [] h = h
  require_readiness-Extends (r ∷ references) h =
      let (retained, found, h1) =
        >>=-eq-ok
          (require_evidence readiness_source evidence_missing a.readiness r.artifact_id
            request.organization_id request.workload_context_id)
          _ h in
      let (u, matched, h2) =
        >>=-eq-ok (guard (retained.canonical_digest == r.canonical_digest) digest_mismatch) _ h1 in
      let (rest, later, h3) = >>=-eq-ok (require_readiness a.readiness request references) _ h2 in
      let still =
        require_evidence-Extends readiness_source evidence_missing a.readiness b.readiness
          r.artifact_id request.organization_id request.workload_context_id x.readiness found in
      rw (still, matched, require_readiness-Extends references later) h3

  -- What is resolved is resolved again, as the same, after more evidence is retained.
  pub resolve-Extends :
      (e : VerifiedDispatchEvidence) (policy : RegisteredDispatchPolicy)
      → resolve a request ≡ ok (e, policy)
      → resolve b request ≡ ok (e, policy)
  resolve-Extends e policy h =
      let s = resolve-Steps a request h in
      Steps-resolve b request e policy (record {
        same_request = s.same_request;
        plan =
            require_evidence-Extends plan_source evidence_missing a.plans b.plans request.plan_id
              request.organization_id request.workload_context_id x.plans s.plan;
        selection =
            require_evidence-Extends selection_source evidence_missing a.selections b.selections
              request.selection_id request.organization_id request.workload_context_id x.selections
              s.selection;
        lease =
            require_evidence-Extends lease_source evidence_missing a.leases b.leases
              request.lease_id request.organization_id request.workload_context_id x.leases s.lease;
        checks = s.checks;
        candidate = s.candidate;
        boundary = s.boundary;
        readiness = require_readiness-Extends e.candidate.readiness_references s.readiness;
        same_plan = s.same_plan;
        leased = s.leased;
        registered = s.registered;
      })
