-- ===== src/Dispatch/Domain.antt =====
-- app/runtime/dispatch_decision/domain.py and ports.py: requests, decisions and their records.
use edgeiq.Base.{
  ℕ, String, List, [], Bool, Result, ok, ◌>>=◌, ◌>>◌, guard, map_result, ltb, not, Eq, ◌==◌,
  text_eq, String_discrete,
}
use edgeiq.Platform.{
  DateTime, DateTime_discrete, Interpreter, Bytes, EvidenceReference, EvidenceReference_discrete,
  required_text, sha256_hex, utc_time, sorted_texts, unique_texts, sorted_references,
}
use native.Mathlib.Decide.{ℕ_discrete}

pub data DispatchDecisionError : Type 0 where
  invalid evidence_missing digest_mismatch organization_mismatch version_unsupported :
      DispatchDecisionError
  idempotency_conflict version_conflict not_found persistence_failure : DispatchDecisionError
  reconstruction_failed replay_diverged : DispatchDecisionError

pub data DispatchDecisionOutcome : Type 0 where
  approved denied : DispatchDecisionOutcome

unfoldable pub DispatchDecisionOutcome_discrete : Discrete DispatchDecisionOutcome
DispatchDecisionOutcome_discrete = hlevel

instance abbrev pub outcome_eq : Eq DispatchDecisionOutcome
outcome_eq = record { dec = DispatchDecisionOutcome_discrete }

-- `value` of the enum.
abbrev pub outcome_text : DispatchDecisionOutcome → String
outcome_text approved = "Approved"
outcome_text denied = "Denied"

abbrev pub supported_dispatch_schema_version : String
supported_dispatch_schema_version = "dispatch-decision.v1"

abbrev pub supported_dispatch_component_version : String
supported_dispatch_component_version = "dispatch-decision.evaluator.v1"

abbrev pub supported_serialization_version : String
supported_serialization_version = "canonical-json.v1"

pub record DispatchRequest : Type 0 where
  pub organization_id : String
  pub workload_context_id : String
  pub plan_id : String
  pub plan_digest : String
  pub work_item_id : String
  pub selection_id : String
  pub selection_digest : String
  pub selected_candidate_id : String
  pub lease_id : String
  pub lease_digest : String
  pub dispatch_policy_id : String
  pub dispatch_policy_version : String
  pub dispatch_policy_digest : String
  pub evaluation_boundary : String
  pub effective_at : DateTime
  pub clock_source_id : String
  pub clock_source_version : String
  pub configuration_version : String
  pub schema_version : String
  pub component_version : String
  pub serialization_version : String

abbrev pub StreamKey : Type 0
StreamKey = String × String × String × String × String

unfoldable pub StreamKey_discrete : Discrete StreamKey
StreamKey_discrete = hlevel (String_discrete)

instance abbrev pub stream_key_eq : Eq StreamKey
stream_key_eq = record { dec = StreamKey_discrete }

abbrev pub stream_key : DispatchRequest → StreamKey
stream_key r =
    (r.organization_id, r.workload_context_id, r.plan_id, r.work_item_id, r.selected_candidate_id)

module _ ⦃p : Interpreter⦄ where
  -- `__post_init__`.
  unfoldable pub dispatch_request : DispatchRequest → Result DispatchDecisionError DispatchRequest
  dispatch_request r = do
    organization ← required_text invalid r.organization_id
    workload ← required_text invalid r.workload_context_id
    plan ← required_text invalid r.plan_id
    item ← required_text invalid r.work_item_id
    selection ← required_text invalid r.selection_id
    candidate ← required_text invalid r.selected_candidate_id
    lease ← required_text invalid r.lease_id
    policy ← required_text invalid r.dispatch_policy_id
    policy_version ← required_text invalid r.dispatch_policy_version
    boundary ← required_text invalid r.evaluation_boundary
    clock ← required_text invalid r.clock_source_id
    clock_version ← required_text invalid r.clock_source_version
    configuration ← required_text invalid r.configuration_version
    plan_digest' ← sha256_hex invalid r.plan_digest
    selection_digest' ← sha256_hex invalid r.selection_digest
    lease_digest' ← sha256_hex invalid r.lease_digest
    policy_digest ← sha256_hex invalid r.dispatch_policy_digest
    effective ← utc_time invalid r.effective_at
    guard (r.schema_version == supported_dispatch_schema_version) version_unsupported
    guard (r.component_version == supported_dispatch_component_version) version_unsupported
    guard (r.serialization_version == supported_serialization_version) version_unsupported
    ok (record r {
      organization_id = organization;
      workload_context_id = workload;
      plan_id = plan;
      plan_digest = plan_digest';
      work_item_id = item;
      selection_id = selection;
      selection_digest = selection_digest';
      selected_candidate_id = candidate;
      lease_id = lease;
      lease_digest = lease_digest';
      dispatch_policy_id = policy;
      dispatch_policy_version = policy_version;
      dispatch_policy_digest = policy_digest;
      evaluation_boundary = boundary;
      effective_at = effective;
      clock_source_id = clock;
      clock_source_version = clock_version;
      configuration_version = configuration;
    })

pub record DispatchReconstructionMetadata : Type 0 where
  pub history_boundary : String
  pub effective_at : DateTime
  pub clock_source_id : String
  pub clock_source_version : String
  pub configuration_version : String
  pub component_version : String
  pub serialization_version : String

pub record DispatchDecision : Type 0 where
  pub dispatch_decision_id : String
  pub organization_id : String
  pub workload_context_id : String
  pub plan_reference : EvidenceReference
  pub work_item_id : String
  pub selection_reference : EvidenceReference
  pub selected_candidate_id : String
  pub readiness_references : List EvidenceReference
  pub lease_reference : EvidenceReference
  pub causal_authorization_reference : EvidenceReference
  pub dispatch_policy_reference : EvidenceReference
  pub dispatch_policy_version : String
  pub outcome : DispatchDecisionOutcome
  pub reason_codes : List String
  pub canonical_input_digest : String
  pub canonical_decision_digest : String
  pub stream_version : ℕ
  pub idempotency_identity : String
  pub reconstruction_metadata : DispatchReconstructionMetadata
  pub recorded_at : DateTime
  pub schema_version : String

abbrev no_texts : List String → Bool
no_texts [] = Bool.true
no_texts _ = Bool.false

module _ ⦃p : Interpreter⦄ where
  -- `__post_init__`.
  unfoldable pub dispatch_decision :
      DispatchDecision → Result DispatchDecisionError DispatchDecision
  dispatch_decision d = do
    decision_id ← sha256_hex invalid d.dispatch_decision_id
    input_digest ← sha256_hex invalid d.canonical_input_digest
    decision_digest ← sha256_hex invalid d.canonical_decision_digest
    identity ← sha256_hex invalid d.idempotency_identity
    guard (ltb 0 d.stream_version) invalid
    reasons ← map_result (required_text invalid) d.reason_codes
    guard (not (no_texts reasons)) invalid
    guard (unique_texts reasons) invalid
    recorded ← utc_time invalid d.recorded_at
    guard (d.schema_version == supported_dispatch_schema_version) version_unsupported
    ok (record d {
      dispatch_decision_id = decision_id;
      canonical_input_digest = input_digest;
      canonical_decision_digest = decision_digest;
      idempotency_identity = identity;
      reason_codes = sorted_texts reasons;
      readiness_references = sorted_references d.readiness_references;
      recorded_at = recorded;
    })

pub record DispatchDecisionRecord : Type 0 where
  pub request : DispatchRequest
  pub decision : DispatchDecision
  pub idempotency_identity : String
  pub canonical_input_content : Bytes
  pub canonical_decision_content : Bytes

unfoldable pub DispatchDecisionRecord_discrete : Discrete DispatchDecisionRecord
DispatchDecisionRecord_discrete = hlevel (
  String_discrete, ℕ_discrete, DateTime_discrete, EvidenceReference_discrete,
  DispatchDecisionOutcome_discrete,
)

instance abbrev pub dispatch_record_eq : Eq DispatchDecisionRecord
dispatch_record_eq = record { dec = DispatchDecisionRecord_discrete }

pub data DispatchEvaluationOutcome : Type 0 where
  created existing_equivalent : DispatchEvaluationOutcome

pub record DispatchEvaluationResult : Type 0 where
  pub outcome : DispatchEvaluationOutcome
  pub decision : DispatchDecision
  pub stream_version : ℕ

unfoldable pub DispatchDecision_discrete : Discrete DispatchDecision
DispatchDecision_discrete = hlevel (
  String_discrete, ℕ_discrete, DateTime_discrete, EvidenceReference_discrete,
  DispatchDecisionOutcome_discrete,
)

instance abbrev pub dispatch_decision_eq : Eq DispatchDecision
dispatch_decision_eq = record { dec = DispatchDecision_discrete }
