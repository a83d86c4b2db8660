-- ===== src/Claim/Policy.antt =====
-- app/runtime/work_claim/policy.py: which event a request becomes in a lineage's derived state.
pub mod Registry
pub mod Decisions
use edgeiq.Base.{
  ℕ, ◌+◌, String, Bool, true, false, not, ◌&&◌, Option, none, some, List, [], ◌∷◌, Result, ok, err,
  ◌>>=◌, ◌>>◌, guard, ◌==◌, text_eq, nat_eq, if◌then◌else◌,
}
use edgeiq.Platform.{
  DateTime, Interpreter, before, text, int, array, texts, document, canonical_content,
  namespaced_digest,
}
use edgeiq.Dispatch.Domain.{DispatchDecisionRecord}
use edgeiq.Claim.Domain.{
  WorkClaimError, invalid, illegal_transition, version_unsupported, digest_mismatch,
  WorkClaimOperation, create_generation, claim, expire, release, WorkClaimEventType,
  generation_created, claim_accepted, claim_rejected, claim_expired, claim_released,
  WorkClaimOutcome, created_outcome, accepted, rejected, expired, released, WorkClaimRequest,
  WorkClaimEvent,
}
use edgeiq.Claim.Evidence.{RetainedClaimantEvidence}

pub record WorkClaimDerivedState : Type 0 where
  pub lineage_version : ℕ
  pub current_generation : ℕ
  pub generation_event : Option WorkClaimEvent
  pub accepted_event : Option WorkClaimEvent
  pub ended_event : Option WorkClaimEvent
  pub latest_fence : ℕ
  pub last_event : Option WorkClaimEvent

abbrev pub initial_state : WorkClaimDerivedState
initial_state = record {
  lineage_version = 0;
  current_generation = 0;
  generation_event = none;
  accepted_event = none;
  ended_event = none;
  latest_fence = 0;
  last_event = none;
}

pub record WorkClaimDecision : Type 0 where
  pub event_type : WorkClaimEventType
  pub outcome : WorkClaimOutcome
  pub reason_codes : List String
  pub generation : ℕ
  pub fence : Option ℕ
  pub expires_at_delta_seconds : Option ℕ
  pub causal_event_id : Option String

pub record RegisteredWorkClaimPolicy : Type 0 where
  pub policy_id : String
  pub policy_version : String
  pub claim_ttl_seconds : ℕ
  pub canonical_digest : String

abbrev pub claimant_matches_dispatch_candidate :
    RetainedClaimantEvidence → DispatchDecisionRecord → Bool
claimant_matches_dispatch_candidate claimant dispatch =
    claimant.selected_candidate_id == dispatch.decision.selected_candidate_id

-- `event is not None and time < event.semantic_at`.
abbrev pub precedes : DateTime → Option WorkClaimEvent → Bool
precedes t none = false
precedes t (some event) = before t event.semantic_at

-- `expires_at is None or time < expires_at`.
abbrev pub unexpired : DateTime → Option DateTime → Bool
unexpired t none = true
unexpired t (some expires) = before t expires

abbrev pub decision :
    WorkClaimEventType
    → WorkClaimOutcome
    → String
    → ℕ
    → Option ℕ
    → Option ℕ
    → Option String
    → Result WorkClaimError WorkClaimDecision
decision event_type outcome reason generation fence ttl causal = ok (record {
  event_type = event_type;
  outcome = outcome;
  reason_codes = reason ∷ [];
  generation = generation;
  fence = fence;
  expires_at_delta_seconds = ttl;
  causal_event_id = causal;
})

-- The branch of `CREATE_GENERATION`, on `generation_event` and `ended_event`.
decide_create :
    WorkClaimDerivedState
    → Option WorkClaimEvent
    → Option WorkClaimEvent
    → Result WorkClaimError WorkClaimDecision
decide_create s (some generation) (some ended) =
    if s.lineage_version == 0
    then decision generation_created created_outcome "GENERATION_CREATED" 1 none none none
    else decision generation_created created_outcome "GENERATION_CREATED" (s.current_generation + 1)
        none none (some ended.event_id)
decide_create s _ _ =
    if s.lineage_version == 0
    then decision generation_created created_outcome "GENERATION_CREATED" 1 none none none
    else err illegal_transition

decide_expire :
    WorkClaimRequest
    → WorkClaimDerivedState
    → WorkClaimEvent
    → Result WorkClaimError WorkClaimDecision
decide_expire request s a = do
  guard (request.dispatch_decision_id == a.dispatch_reference.artifact_id) illegal_transition
  guard (not (unexpired request.semantic_at a.expires_at)) illegal_transition
  decision claim_expired expired "CLAIM_EXPIRED" s.current_generation none none (some a.event_id)

decide_release :
    WorkClaimRequest
    → DispatchDecisionRecord
    → RetainedClaimantEvidence
    → WorkClaimDerivedState
    → WorkClaimEvent
    → Result WorkClaimError WorkClaimDecision
decide_release request dispatch claimant s a = do
  guard (request.dispatch_decision_id == a.dispatch_reference.artifact_id) illegal_transition
  guard (claimant.claimant_id == a.claimant_id) illegal_transition
  guard
      (claimant_matches_dispatch_candidate claimant dispatch
        && claimant.selected_candidate_id == a.selected_candidate_id)
      illegal_transition
  decision claim_released released "CLAIM_RELEASED" s.current_generation none none (some a.event_id)

-- In the open generation `g`, by the operation and the accepted claim.
decide_open :
    RegisteredWorkClaimPolicy
    → WorkClaimRequest
    → DispatchDecisionRecord
    → RetainedClaimantEvidence
    → WorkClaimDerivedState
    → WorkClaimEvent
    → WorkClaimOperation
    → Option WorkClaimEvent
    → Result WorkClaimError WorkClaimDecision
unfolding decide_expire decide_release
decide_open policy request dispatch claimant s g claim (some a) =
    decision claim_rejected rejected "ACTIVE_CLAIM_EXISTS" s.current_generation none none
      (some a.event_id)
decide_open policy request dispatch claimant s g claim none =
    if claimant_matches_dispatch_candidate claimant dispatch
    then decision claim_accepted accepted "CLAIM_ACCEPTED" s.current_generation
        (some (s.latest_fence + 1)) (some policy.claim_ttl_seconds) (some g.event_id)
    else decision claim_rejected rejected "CLAIMANT_NOT_SELECTED_CANDIDATE" s.current_generation
        none none (some g.event_id)
decide_open policy request dispatch claimant s g expire (some a) = decide_expire request s a
decide_open policy request dispatch claimant s g release (some a) =
    decide_release request dispatch claimant s a
decide_open policy request dispatch claimant s g _ _ = err illegal_transition

-- By the operation, `generation_event` and `ended_event`.
decide_operation :
    RegisteredWorkClaimPolicy
    → WorkClaimRequest
    → DispatchDecisionRecord
    → RetainedClaimantEvidence
    → WorkClaimDerivedState
    → WorkClaimOperation
    → Option WorkClaimEvent
    → Option WorkClaimEvent
    → Result WorkClaimError WorkClaimDecision
unfolding decide_create decide_open
decide_operation policy request dispatch claimant s create_generation generation ended =
    decide_create s generation ended
decide_operation policy request dispatch claimant s operation (some g) none =
    decide_open policy request dispatch claimant s g operation s.accepted_event
decide_operation policy request dispatch claimant s operation _ _ = err illegal_transition

-- `RegisteredWorkClaimPolicy.decide`.
unfoldable pub decide :
    RegisteredWorkClaimPolicy
    → WorkClaimRequest
    → DispatchDecisionRecord
    → RetainedClaimantEvidence
    → WorkClaimDerivedState
    → Result WorkClaimError WorkClaimDecision
unfolding decide_operation
decide policy request dispatch claimant s = do
  guard (not (precedes request.semantic_at s.last_event)) illegal_transition
  decide_operation policy request dispatch claimant s request.operation s.generation_event
      s.ended_event
