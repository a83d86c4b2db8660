-- ===== src/Lease/Domain/Types.antt =====
-- Errors, enums and dataclasses of app/runtime/execution_lease/domain.py.
use edgeiq.Base.{ℕ, String, Option, List, Eq, String_discrete}
use native.Mathlib.Decide.{ℕ_discrete}
use edgeiq.Platform.{
  Bytes, DateTime, DateTime_discrete, EvidenceReference, EvidenceReference_discrete,
}

-- The subclasses of `ExecutionLeaseError`.
pub data ExecutionLeaseError : Type 0 where
  invalid evidence_unavailable digest_mismatch version_unsupported illegal_transition :
      ExecutionLeaseError
  idempotency_conflict version_conflict not_found persistence_failure : ExecutionLeaseError
  reconstruction_failed replay_diverged : ExecutionLeaseError

pub data LeaseOperation : Type 0 where
  grant renew revoke supersede : LeaseOperation

pub data LeaseEventType : Type 0 where
  granted renewed revoked superseded : LeaseEventType

pub data LeasePermission : Type 0 where
  offer_work_item initiate_work_item_execution : LeasePermission

pub data LeaseEvaluationOutcome : Type 0 where
  created existing_equivalent : LeaseEvaluationOutcome

-- The values of the enums.
abbrev pub operation_text : LeaseOperation → String
operation_text grant = "Grant"
operation_text renew = "Renew"
operation_text revoke = "Revoke"
operation_text supersede = "Supersede"

abbrev pub event_type_text : LeaseEventType → String
event_type_text granted = "LeaseGranted"
event_type_text renewed = "LeaseRenewed"
event_type_text revoked = "LeaseRevoked"
event_type_text superseded = "LeaseSuperseded"

abbrev pub permission_text : LeasePermission → String
permission_text offer_work_item = "OFFER_WORK_ITEM"
permission_text initiate_work_item_execution = "INITIATE_WORK_ITEM_EXECUTION"

unfoldable pub LeaseOperation_discrete : Discrete LeaseOperation
LeaseOperation_discrete = hlevel

unfoldable pub LeaseEventType_discrete : Discrete LeaseEventType
LeaseEventType_discrete = hlevel

unfoldable pub LeasePermission_discrete : Discrete LeasePermission
LeasePermission_discrete = hlevel

instance abbrev pub operation_eq : Eq LeaseOperation
operation_eq = record { dec = LeaseOperation_discrete }

instance abbrev pub event_type_eq : Eq LeaseEventType
event_type_eq = record { dec = LeaseEventType_discrete }

instance abbrev pub permission_eq : Eq LeasePermission
permission_eq = record { dec = LeasePermission_discrete }

abbrev pub supported_execution_lease_schema_version : String
supported_execution_lease_schema_version = "execution-lease.v1"

abbrev pub supported_execution_lease_component_version : String
supported_execution_lease_component_version = "execution-lease.service.v1"

abbrev pub supported_serialization_version : String
supported_serialization_version = "canonical-json.v1"

abbrev pub supported_permission_family : String
supported_permission_family = "work-item-execution.v1"

-- `LineageKey`: organization, workload context, plan, work item and permission family.
abbrev pub LineageKey : Type 0
LineageKey = String × String × String × String × String

unfoldable pub LineageKey_discrete : Discrete LineageKey
LineageKey_discrete = hlevel String_discrete

instance abbrev pub lineage_key_eq : Eq LineageKey
lineage_key_eq = record { dec = LineageKey_discrete }

pub record ExecutionLeaseRequest : Type 0 where
  pub operation : LeaseOperation
  pub organization_id : String
  pub workload_context_id : String
  pub plan_id : String
  pub work_item_id : String
  pub permission_family : String
  pub requested_permissions : List LeasePermission
  pub authorization_evidence_id : Option String
  pub authorization_evidence_digest : Option String
  pub authorization_history_boundary : Option String
  pub prior_event_id : Option String
  pub revocation_evidence_id : Option String
  pub revocation_evidence_digest : Option String
  pub effective_at : DateTime
  pub expires_at : Option DateTime
  pub evaluation_at : DateTime
  pub clock_source_id : String
  pub clock_source_version : String
  pub lease_policy_id : String
  pub lease_policy_version : String
  pub lease_policy_digest : String
  pub configuration_version : String
  pub expected_lineage_version : ℕ
  pub idempotency_key : String
  pub schema_version : String
  pub component_version : String
  pub serialization_version : String

-- The property `lineage_key`.
abbrev pub lineage_key : ExecutionLeaseRequest → LineageKey
lineage_key r =
    (r.organization_id, r.workload_context_id, r.plan_id, r.work_item_id, r.permission_family)

pub record LeaseReconstructionMetadata : Type 0 where
  pub authorization_history_boundary : Option String
  pub evaluation_at : DateTime
  pub clock_source_id : String
  pub clock_source_version : String
  pub configuration_version : String
  pub component_version : String
  pub serialization_version : String

pub record ExecutionLeaseEvent : Type 0 where
  pub event_id : String
  pub lease_id : String
  pub lineage_id : String
  pub organization_id : String
  pub workload_context_id : String
  pub plan_id : String
  pub work_item_id : String
  pub permission_family : String
  pub event_type : LeaseEventType
  pub permissions : List LeasePermission
  pub authorization_reference : Option EvidenceReference
  pub revocation_reference : Option EvidenceReference
  pub policy_reference : EvidenceReference
  pub policy_version : String
  pub generation : ℕ
  pub lineage_version : ℕ
  pub prior_event_id : Option String
  pub superseded_lease_id : Option String
  pub effective_at : DateTime
  pub expires_at : Option DateTime
  pub canonical_input_digest : String
  pub canonical_event_digest : String
  pub idempotency_identity : String
  pub reconstruction_metadata : LeaseReconstructionMetadata
  pub recorded_at : DateTime
  pub schema_version : String

unfoldable pub ExecutionLeaseRequest_discrete : Discrete ExecutionLeaseRequest
ExecutionLeaseRequest_discrete = hlevel (
  String_discrete, ℕ_discrete, DateTime_discrete, LeaseOperation_discrete, LeasePermission_discrete,
)

instance abbrev pub request_eq : Eq ExecutionLeaseRequest
request_eq = record { dec = ExecutionLeaseRequest_discrete }

unfoldable pub ExecutionLeaseEvent_discrete : Discrete ExecutionLeaseEvent
ExecutionLeaseEvent_discrete = hlevel (
  String_discrete, ℕ_discrete, DateTime_discrete, EvidenceReference_discrete,
  LeaseEventType_discrete, LeasePermission_discrete,
)

instance abbrev pub event_eq : Eq ExecutionLeaseEvent
event_eq = record { dec = ExecutionLeaseEvent_discrete }

pub record ExecutionLeaseEvaluationResult : Type 0 where
  pub outcome : LeaseEvaluationOutcome
  pub event : ExecutionLeaseEvent
  pub lineage_version : ℕ

-- ports.py.
pub record ExecutionLeaseRecord : Type 0 where
  pub request : ExecutionLeaseRequest
  pub event : ExecutionLeaseEvent
  pub idempotency_identity : String
  pub canonical_input_content : Bytes
  pub canonical_event_content : Bytes

unfoldable pub Bytes_discrete : Discrete Bytes
Bytes_discrete = hlevel ℕ_discrete

instance abbrev pub bytes_eq : Eq Bytes
bytes_eq = record { dec = Bytes_discrete }
