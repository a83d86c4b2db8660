-- ===== src/Claim/State/Agreement.antt =====
-- The policy and the replay agree: an event that the policy decides on is one that `_advance_state`
-- takes, in every state that a history derives.
use edgeiq.Base.{◌+◌, ◌<◌, ◌≡◌, true, none, ok, arith, is_some, is_ok}
use edgeiq.Dispatch.Domain.{DispatchDecisionRecord}
use edgeiq.Claim.Domain.{WorkClaimRequest, WorkClaimEvent}
use edgeiq.Claim.Evidence.{RetainedClaimantEvidence}
use edgeiq.Claim.Policy.{
  RegisteredWorkClaimPolicy, WorkClaimDerivedState, WorkClaimDecision, initial_state, decide,
}
use edgeiq.Claim.State.{advance_state}

-- What holds of a derived state: no generation is no history, and only an accepted claim ends.
pub record IsCoherent (s : WorkClaimDerivedState) : Type 0 where
  pub fresh :
      s.generation_event ≡ none
      → (s.lineage_version ≡ 0) × (s.current_generation ≡ 0) × (s.ended_event ≡ none)
  pub started :
      is_some s.generation_event ≡ true → (0 < s.lineage_version) × (0 < s.current_generation)
  pub ended : is_some s.ended_event ≡ true → is_some s.accepted_event ≡ true

pub initial_state-IsCoherent : IsCoherent initial_state
initial_state-IsCoherent = ground arith

-- The event carries what the policy decided, at the next version.
pub record Carries (s : WorkClaimDerivedState) (d : WorkClaimDecision) (event : WorkClaimEvent)
    : Type 0 where
  pub event_type : event.event_type ≡ d.event_type
  pub generation : event.generation ≡ d.generation
  pub fence : event.fence ≡ d.fence
  pub causal : event.causal_event_id ≡ d.causal_event_id
  pub version : event.lineage_version ≡ s.lineage_version + 1

-- `_advance_state` keeps a derived state coherent: a lineage without a generation has no version, one with
-- a generation has positive numbers, and only a generation with an accepted claim has ended.
pub advance_state-IsCoherent :
    (s : WorkClaimDerivedState) (event : WorkClaimEvent) {s' : WorkClaimDerivedState}
    → IsCoherent s
    → advance_state s event ≡ ok s'
    → IsCoherent s'
unfolding advance_state
advance_state-IsCoherent s event c h = ground arith

module _ (policy : RegisteredWorkClaimPolicy) (request : WorkClaimRequest)
    (dispatch : DispatchDecisionRecord) (claimant : RetainedClaimantEvidence)
    (s : WorkClaimDerivedState) (event : WorkClaimEvent) where
  -- An event that carries, at the next version, what the policy decided is one that `_advance_state` takes,
  -- in every coherent state: an admitted request never makes its lineage unreadable.
  pub decide-advance_state :
      {d : WorkClaimDecision}
      → decide policy request dispatch claimant s ≡ ok d
      → Carries s d event
      → IsCoherent s
      → is_ok (advance_state s event) ≡ true
  unfolding decide advance_state
  decide-advance_state h c k = ground arith
