-- ===== src/Claim/SampleEvents.antt =====
-- Single events of the scenario's lineage, the states after them, and a request on them.
use edgeiq.Base.{ℕ, ◌*◌, String, Option, none, some, [], ◌∷◌, text_eq}
use edgeiq.Platform.{DateTime}
use edgeiq.Platform.Plain.{plain}
use edgeiq.Dispatch.Domain.{dispatch_record_eq}
use edgeiq.Claim.Domain.{
  WorkClaimRequest, WorkClaimEvent, WorkClaimEventType, WorkClaimOutcome, generation_created,
  created_outcome, claim_accepted, accepted, release, supported_serialization_version,
  supported_work_claim_schema_version, supported_work_claim_component_version,
}
use edgeiq.Claim.Evidence.{claimant_eq}
use edgeiq.Claim.Policy.{RegisteredWorkClaimPolicy, WorkClaimDerivedState}
use edgeiq.Claim.Scenario.{sixty_four, reference, moment, request}

-- The registered policy's fields, without its digest.
abbrev pub rules : RegisteredWorkClaimPolicy
rules = record {
  policy_id = "work-claim-policy";
  policy_version = "work-claim-policy.v1";
  claim_ttl_seconds = 300;
  canonical_digest = sixty_four;
}

-- An event of the lineage, by its identity, type, outcome, version, fence, expiry and cause.
abbrev pub sample :
    String
    → WorkClaimEventType
    → WorkClaimOutcome
    → ℕ
    → Option ℕ
    → Option DateTime
    → Option String
    → WorkClaimEvent
sample id event_type outcome version fence expires causal = record {
  event_id = id;
  lineage_id = sixty_four;
  organization_id = "org";
  workload_context_id = "ctx";
  plan_id = "plan";
  work_item_id = "item";
  event_type = event_type;
  outcome = outcome;
  reason_codes = "REASON" ∷ [];
  dispatch_reference = reference "dispatch";
  claimant_reference = reference "evidence";
  claimant_id = "claimant";
  selected_candidate_id = "worker";
  claim_policy_reference = reference "work-claim-policy";
  claim_policy_version = "work-claim-policy.v1";
  lineage_version = version;
  generation = 1;
  fence = fence;
  semantic_at = moment (10 * version);
  expires_at = expires;
  release_reason = none;
  causal_event_id = causal;
  canonical_input_digest = sixty_four;
  canonical_event_digest = sixty_four;
  idempotency_identity = sixty_four;
  reconstruction_metadata = record {
    evidence_boundary = "boundary";
    semantic_at = moment (10 * version);
    clock_source_id = "clock";
    clock_source_version = "clock.v1";
    configuration_version = "config";
    component_version = supported_work_claim_component_version;
    serialization_version = supported_serialization_version;
  };
  recorded_at = moment 9000;
  schema_version = supported_work_claim_schema_version;
}

abbrev pub created_event : WorkClaimEvent
created_event = sample "created" generation_created created_outcome 1 none none none

abbrev pub accepted_event : WorkClaimEvent
accepted_event =
    sample "accepted" claim_accepted accepted 2 (some 1) (some (moment 330)) (some "created")

-- The states after the first and after both of these.
abbrev pub open_state : WorkClaimDerivedState
open_state = record {
  lineage_version = 1;
  current_generation = 1;
  generation_event = some created_event;
  accepted_event = none;
  ended_event = none;
  latest_fence = 0;
  last_event = some created_event;
}

abbrev pub claimed_state : WorkClaimDerivedState
claimed_state = record {
  lineage_version = 2;
  current_generation = 1;
  generation_event = some created_event;
  accepted_event = some accepted_event;
  ended_event = none;
  latest_fence = 1;
  last_event = some accepted_event;
}

abbrev pub releasing : WorkClaimRequest
releasing = request release 40 2 "k2" (some "done")
