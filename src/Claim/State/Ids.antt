-- ===== src/Claim/State/Ids.antt =====
-- The identities that a derived state refers to are in normal form, so the cause that an event names
-- is the event that it was decided on.
use edgeiq.Base.{String, ◌≡◌, Option, none, some, ok, arith}
use edgeiq.Platform.{Interpreter, optional_text}
use edgeiq.Dispatch.Domain.{DispatchDecisionRecord}
use edgeiq.Claim.Domain.{WorkClaimError, WorkClaimRequest, WorkClaimEvent}
use edgeiq.Claim.Evidence.{RetainedClaimantEvidence}
use edgeiq.Claim.Policy.{
  RegisteredWorkClaimPolicy, WorkClaimDerivedState, WorkClaimDecision, initial_state, decide,
}
use edgeiq.Claim.State.{advance_state}

module _ ⦃p : Interpreter⦄ where
  abbrev pub HasFixedId : Option WorkClaimEvent → Type 0
  HasFixedId none = Unit
  HasFixedId (some e) = p.nfc e.event_id ≡ e.event_id

  pub record HasFixedIds (s : WorkClaimDerivedState) : Type 0 where
    pub generation : HasFixedId s.generation_event
    pub accepted : HasFixedId s.accepted_event
    pub ended : HasFixedId s.ended_event

  pub initial_state-HasFixedIds : HasFixedIds initial_state
  initial_state-HasFixedIds = record { generation = tt; accepted = tt; ended = tt }

  pub advance_state-HasFixedIds :
      (s : WorkClaimDerivedState) (event : WorkClaimEvent) {s' : WorkClaimDerivedState}
      → HasFixedIds s
      → p.nfc event.event_id ≡ event.event_id
      → advance_state s event ≡ ok s'
      → HasFixedIds s'
  unfolding advance_state
  advance_state-HasFixedIds s event f e h = ground arith

  pub decided_cause :
      (policy : RegisteredWorkClaimPolicy) (request : WorkClaimRequest)
      (dispatch : DispatchDecisionRecord) (claimant : RetainedClaimantEvidence)
      (s : WorkClaimDerivedState) {d : WorkClaimDecision} {cause : Option String}
      → HasFixedIds s
      → decide policy request dispatch claimant s ≡ ok d
      → optional_text WorkClaimError.invalid d.causal_event_id ≡ ok cause
      → cause ≡ d.causal_event_id
  unfolding decide optional_text
  decided_cause policy request dispatch claimant s f h c = ground arith
