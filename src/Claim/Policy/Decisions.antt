-- ===== src/Claim/Policy/Decisions.antt =====
-- When the policy accepts, rejects, expires and releases a claim.
use edgeiq.Base.{◌+◌, ◌≤◌, ◌≡◌, ◌⊎◌, true, false, Option, none, some, ok, arith, is_some}
use edgeiq.Platform.{DateTime, instant}
use edgeiq.Dispatch.Domain.{DispatchDecisionRecord}
use edgeiq.Claim.Domain.{
  WorkClaimRequest, WorkClaimEvent, claim, expire, release, claim_accepted, claim_rejected,
  claim_expired, claim_released,
}
use edgeiq.Claim.Evidence.{RetainedClaimantEvidence}
use edgeiq.Claim.Policy.{
  RegisteredWorkClaimPolicy, WorkClaimDerivedState, WorkClaimDecision, decide, precedes,
}

-- The expiry is set, and not after `t`.
abbrev pub HasPassed : DateTime → Option DateTime → Type 0
HasPassed t none = ⊥
HasPassed t (some expires) = instant expires ≤ instant t

module _ (policy : RegisteredWorkClaimPolicy) (request : WorkClaimRequest)
    (dispatch : DispatchDecisionRecord) (claimant : RetainedClaimantEvidence)
    (s : WorkClaimDerivedState) where
  -- The conditions of an acceptance.
  pub record Admissible : Type 0 where
    pub operation : request.operation ≡ claim
    pub in_order : precedes request.semantic_at s.last_event ≡ false
    pub generation_open : is_some s.generation_event ≡ true
    pub not_ended : s.ended_event ≡ none
    pub unclaimed : s.accepted_event ≡ none
    pub selected : claimant.selected_candidate_id ≡ dispatch.decision.selected_candidate_id

  module _ {d : WorkClaimDecision}
      (decided : decide policy request dispatch claimant s ≡ ok d) where
    -- A claim is accepted only for the dispatch-selected candidate, in an open generation that has no
    -- accepted claim, in time order; the acceptance takes the next fence and the policy's duration.
    pub accepted_only :
        d.event_type ≡ claim_accepted
        → Admissible
          × (d.generation ≡ s.current_generation)
          × (d.fence ≡ some (s.latest_fence + 1))
          × (d.expires_at_delta_seconds ≡ some policy.claim_ttl_seconds)
    unfolding decide
    accepted_only h = ground arith

    -- No decision but an acceptance has a fence or a duration.
    pub fence_only_accepted :
        (d.event_type ≡ claim_accepted) ⊎ ((d.fence ≡ none) × (d.expires_at_delta_seconds ≡ none))
    unfolding decide
    fence_only_accepted = ground arith

  module _ (a : WorkClaimEvent) (held : s.accepted_event ≡ some a) {d : WorkClaimDecision}
      (decided : decide policy request dispatch claimant s ≡ ok d) where
    -- A second claim of the generation is rejected, without a fence, on account of the first one.
    pub claimed_again :
        request.operation ≡ claim
        → (d.event_type ≡ claim_rejected) × (d.fence ≡ none) × (d.causal_event_id ≡ some a.event_id)
    unfolding decide
    claimed_again h = ground arith

    -- A claim is released only at its own claimant's request, which names the accepted dispatch
    -- decision and candidate; the release names the acceptance as its cause.
    pub released_only :
        d.event_type ≡ claim_released
        → (request.operation ≡ release)
          × (claimant.claimant_id ≡ a.claimant_id)
          × (request.dispatch_decision_id ≡ a.dispatch_reference.artifact_id)
          × (claimant.selected_candidate_id ≡ a.selected_candidate_id)
          × (d.causal_event_id ≡ some a.event_id)
    unfolding decide
    released_only h = ground arith

    -- A claim expires only at or after its expiry time; the expiry names the acceptance as its cause.
    pub expired_only :
        d.event_type ≡ claim_expired
        → (request.operation ≡ expire)
          × HasPassed request.semantic_at a.expires_at
          × (d.causal_event_id ≡ some a.event_id)
    unfolding decide
    expired_only h = ground arith
