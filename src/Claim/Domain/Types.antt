-- ===== src/Claim/Domain/Types.antt =====
-- Errors, enums and dataclasses of app/runtime/work_claim/domain.py.
use edgeiq.Base.{ℕ, String, Option, List, Eq, String_discrete}
use native.Mathlib.Decide.{ℕ_discrete}
use edgeiq.Platform.{
  Bytes, DateTime, DateTime_discrete, EvidenceReference, EvidenceReference_discrete,
}

-- `overflow` is Python's `OverflowError`; the others are the subclasses of `WorkClaimError`.
pub data WorkClaimError : Type 0 where
  invalid evidence_unavailable digest_mismatch scope_mismatch version_unsupported : WorkClaimError
  illegal_transition idempotency_conflict version_conflict not_found : WorkClaimError
  persistence_failure reconstruction_failed replay_diverged overflow : WorkClaimError

pub data WorkClaimOperation : Type 0 where
  create_generation claim expire release : WorkClaimOperation

pub data WorkClaimEventType : Type 0 where
  generation_created claim_accepted claim_rejected claim_expired claim_released : WorkClaimEventType

pub data WorkClaimOutcome : Type 0 where
  created_outcome accepted rejected expired released : WorkClaimOutcome

pub data WorkClaimEvaluationOutcome : Type 0 where
  created existing_equivalent : WorkClaimEvaluationOutcome

-- The values of the enums.
abbrev pub operation_text : WorkClaimOperation → String
operation_text create_generation = "CreateGeneration"
operation_text claim = "Claim"
operation_text expire = "Expire"
operation_text release = "Release"

abbrev pub event_type_text : WorkClaimEventType → String
event_type_text generation_created = "GenerationCreated"
event_type_text claim_accepted = "ClaimAccepted"
event_type_text claim_rejected = "ClaimRejected"
event_type_text claim_expired = "ClaimExpired"
event_type_text claim_released = "ClaimReleased"

abbrev pub outcome_text : WorkClaimOutcome → String
outcome_text created_outcome = "GenerationCreated"
outcome_text accepted = "Accepted"
outcome_text rejected = "Rejected"
outcome_text expired = "Expired"
outcome_text released = "Released"

unfoldable pub WorkClaimOperation_discrete : Discrete WorkClaimOperation
WorkClaimOperation_discrete = hlevel

unfoldable pub WorkClaimEventType_discrete : Discrete WorkClaimEventType
WorkClaimEventType_discrete = hlevel

unfoldable pub WorkClaimOutcome_discrete : Discrete WorkClaimOutcome
WorkClaimOutcome_discrete = hlevel

instance abbrev pub operation_eq : Eq WorkClaimOperation
operation_eq = record { dec = WorkClaimOperation_discrete }

instance abbrev pub event_type_eq : Eq WorkClaimEventType
event_type_eq = record { dec = WorkClaimEventType_discrete }

abbrev pub supported_work_claim_schema_version : String
supported_work_claim_schema_version = "work-claim.v1"

abbrev pub supported_work_claim_component_version : String
supported_work_claim_component_version = "work-claim.service.v1"

abbrev pub supported_serialization_version : String
supported_serialization_version = "canonical-json.v1"

-- `LineageKey`: organization, workload context, plan and work item.
abbrev pub LineageKey : Type 0
LineageKey = String × String × String × String

unfoldable pub LineageKey_discrete : Discrete LineageKey
LineageKey_discrete = hlevel String_discrete

instance abbrev pub lineage_key_eq : Eq LineageKey
lineage_key_eq = record { dec = LineageKey_discrete }

pub record WorkClaimRequest : Type 0 where
  pub operation : WorkClaimOperation
  pub organization_id : String
  pub workload_context_id : String
  pub plan_id : String
  pub work_item_id : String
  pub dispatch_decision_id : String
  pub dispatch_decision_digest : String
  pub claimant_evidence_id : String
  pub claimant_evidence_digest : String
  pub selected_candidate_id : String
  pub claim_policy_id : String
  pub claim_policy_version : String
  pub claim_policy_digest : String
  pub evidence_boundary : String
  pub semantic_at : DateTime
  pub clock_source_id : String
  pub clock_source_version : String
  pub configuration_version : String
  pub expected_lineage_version : ℕ
  pub idempotency_key : String
  pub release_reason : Option String
  pub schema_version : String
  pub component_version : String
  pub serialization_version : String

-- The property `lineage_key`.
abbrev pub lineage_key : WorkClaimRequest → LineageKey
lineage_key r = (r.organization_id, r.workload_context_id, r.plan_id, r.work_item_id)

pub record WorkClaimReconstructionMetadata : Type 0 where
  pub evidence_boundary : String
  pub semantic_at : DateTime
  pub clock_source_id : String
  pub clock_source_version : String
  pub configuration_version : String
  pub component_version : String
  pub serialization_version : String

pub record WorkClaimEvent : Type 0 where
  pub event_id : String
  pub lineage_id : String
  pub organization_id : String
  pub workload_context_id : String
  pub plan_id : String
  pub work_item_id : String
  pub event_type : WorkClaimEventType
  pub outcome : WorkClaimOutcome
  pub reason_codes : List String
  pub dispatch_reference : EvidenceReference
  pub claimant_reference : EvidenceReference
  pub claimant_id : String
  pub selected_candidate_id : String
  pub claim_policy_reference : EvidenceReference
  pub claim_policy_version : String
  pub lineage_version : ℕ
  pub generation : ℕ
  pub fence : Option ℕ
  pub semantic_at : DateTime
  pub expires_at : Option DateTime
  pub release_reason : Option String
  pub causal_event_id : Option String
  pub canonical_input_digest : String
  pub canonical_event_digest : String
  pub idempotency_identity : String
  pub reconstruction_metadata : WorkClaimReconstructionMetadata
  pub recorded_at : DateTime
  pub schema_version : String

unfoldable pub WorkClaimEvent_discrete : Discrete WorkClaimEvent
WorkClaimEvent_discrete = hlevel (
  String_discrete, ℕ_discrete, DateTime_discrete, EvidenceReference_discrete,
  WorkClaimEventType_discrete, WorkClaimOutcome_discrete,
)

instance abbrev pub event_eq : Eq WorkClaimEvent
event_eq = record { dec = WorkClaimEvent_discrete }

pub record WorkClaimEvaluationResult : Type 0 where
  pub outcome : WorkClaimEvaluationOutcome
  pub event : WorkClaimEvent
  pub lineage_version : ℕ

-- ports.py.
pub record WorkClaimRecord : Type 0 where
  pub request : WorkClaimRequest
  pub event : WorkClaimEvent
  pub idempotency_identity : String
  pub canonical_input_content : Bytes
  pub canonical_event_content : Bytes

unfoldable pub Bytes_discrete : Discrete Bytes
Bytes_discrete = hlevel ℕ_discrete

instance abbrev pub bytes_eq : Eq Bytes
bytes_eq = record { dec = Bytes_discrete }
