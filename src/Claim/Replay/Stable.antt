-- ===== src/Claim/Replay/Stable.antt =====
-- What is resolved from the evidence sources stays so when more evidence is retained.
use edgeiq.Base.{◌≡◌, ok, >>=-eq-ok}
use edgeiq.Platform.{Interpreter, require_evidence}
use edgeiq.Platform.Evidence.Immutable.{Extends, Extends-refl, require_evidence-Extends}
use edgeiq.Claim.Domain.{evidence_unavailable, WorkClaimRequest}
use edgeiq.Claim.Evidence.{claimant_source, dispatch_source}
use edgeiq.Claim.Replay.{Sources, Resolved, resolve}

pub record SourcesExtend (a b : Sources) : Type 0 where
  pub dispatches : Extends a.dispatches b.dispatches
  pub claimants : Extends a.claimants b.claimants

pub SourcesExtend-refl : (a : Sources) → SourcesExtend a a
SourcesExtend-refl a = record {
  dispatches = Extends-refl a.dispatches;
  claimants = Extends-refl a.claimants;
}

module _ ⦃p : Interpreter⦄ where
  pub resolve-Extends :
      (a b : Sources) (request : WorkClaimRequest) {e : Resolved}
      → SourcesExtend a b
      → resolve a request ≡ ok e
      → resolve b request ≡ ok e
  unfolding resolve
  resolve-Extends a b request x h =
      let organization = request.organization_id in
      let workload = request.workload_context_id in
      let (d, hd, rest) =
        >>=-eq-ok
          (require_evidence dispatch_source evidence_unavailable a.dispatches
            request.dispatch_decision_id organization workload)
          _ h in
      let (c, hc, rest') =
        >>=-eq-ok
          (require_evidence claimant_source evidence_unavailable a.claimants
            request.claimant_evidence_id organization workload)
          _ rest in
      rw
        (require_evidence-Extends dispatch_source evidence_unavailable a.dispatches b.dispatches
          request.dispatch_decision_id organization workload x.dispatches hd)
        (rw
          (require_evidence-Extends claimant_source evidence_unavailable a.claimants b.claimants
            request.claimant_evidence_id organization workload x.claimants hc)
          rest')
