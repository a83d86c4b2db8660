-- ===== src/Lease/Serialization/Build.antt =====
-- `build_execution_lease_event` of app/runtime/execution_lease/serialization.py. `recorded_at` is the
-- retained time of a replay, or else the clock's time.
pub mod Built
use edgeiq.Base.{ℕ, String, Option, none, some, List, [], ◌∷◌, Result, ok, ◌>>=◌, optionally, map}
use edgeiq.Platform.{
  Bytes, DateTime, Interpreter, EvidenceReference, evidence_reference, Value, null, int, text, enum,
  time, array, enums, opt_text, opt_time, document, canonical_content, namespaced_digest,
}
use edgeiq.Lease.Domain.{
  ExecutionLeaseError, invalid, ExecutionLeaseRequest, ExecutionLeaseEvent, LeaseEventType,
  LeasePermission, lineage_key, event_type_text, permission_text, execution_lease_event,
  lease_reconstruction_metadata, supported_execution_lease_schema_version,
  supported_execution_lease_component_version, supported_serialization_version,
}
use edgeiq.Lease.Evidence.{RetainedAuthorizationEvidence, OpaqueRetainedRevocationEvidence}
use edgeiq.Lease.Policy.{RegisteredExecutionLeasePolicy}
use edgeiq.Lease.Serialization.{
  input_digest_namespace, event_digest_namespace, event_id_namespace, lineage_identity,
  lease_identity, canonical_input_content,
}

abbrev reference_document : String → String → Value
reference_document id digest =
    document (("artifact_id", text id) ∷ ("canonical_digest", text digest) ∷ [])

abbrev authorization_reference_document : Option RetainedAuthorizationEvidence → Value
authorization_reference_document none = null
authorization_reference_document (some a) = reference_document a.authorization_id a.canonical_digest

abbrev revocation_reference_document : Option OpaqueRetainedRevocationEvidence → Value
revocation_reference_document none = null
revocation_reference_document (some e) = reference_document e.evidence_id e.canonical_digest

abbrev permissions_of :
    ExecutionLeaseRequest → Option RetainedAuthorizationEvidence → List LeasePermission
permissions_of r none = []
permissions_of r (some a) = r.requested_permissions

abbrev effective_of : ExecutionLeaseRequest → Option OpaqueRetainedRevocationEvidence → DateTime
effective_of r none = r.effective_at
effective_of r (some e) = e.effective_at

abbrev expiry_of : ExecutionLeaseRequest → Option RetainedAuthorizationEvidence → Option DateTime
expiry_of r none = none
expiry_of r (some a) = r.expires_at

-- What the event is built from.
pub record EventInput : Type 0 where
  pub request : ExecutionLeaseRequest
  pub authorization : Option RetainedAuthorizationEvidence
  pub revocation : Option OpaqueRetainedRevocationEvidence
  pub policy : RegisteredExecutionLeasePolicy
  pub event_type : LeaseEventType
  pub generation : ℕ
  pub lineage_version : ℕ
  pub idempotency : String
  pub superseded_lease_id : Option String

-- `payload`, with the input's digest, the lease's identity and the lineage's.
abbrev event_document : EventInput → String → String → String → Value
event_document i input_digest lease_id lineage_id =
    let r = i.request in
    document (
      ("authorization_reference", authorization_reference_document i.authorization)
      ∷ ("canonical_input_digest", text input_digest)
      ∷ ("effective_at", time (effective_of r i.revocation))
      ∷ ("event_type", enum (event_type_text i.event_type))
      ∷ ("expires_at", opt_time (expiry_of r i.authorization))
      ∷ ("generation", int i.generation)
      ∷ ("idempotency_identity", text i.idempotency)
      ∷ ("lease_id", text lease_id)
      ∷ ("lineage_id", text lineage_id)
      ∷ ("lineage_version", int i.lineage_version)
      ∷ ("organization_id", text r.organization_id)
      ∷ ("permission_family", text r.permission_family)
      ∷ ("permissions", array (enums (map permission_text (permissions_of r i.authorization))))
      ∷ ("plan_id", text r.plan_id)
      ∷ ("policy_reference", reference_document i.policy.policy_id i.policy.canonical_digest)
      ∷ ("policy_version", text i.policy.policy_version)
      ∷ ("prior_event_id", opt_text r.prior_event_id)
      ∷ (
        "reconstruction_metadata",
        document (
            ("authorization_history_boundary", opt_text r.authorization_history_boundary)
            ∷ ("clock_source_id", text r.clock_source_id)
            ∷ ("clock_source_version", text r.clock_source_version)
            ∷ ("component_version", text r.component_version)
            ∷ ("configuration_version", text r.configuration_version)
            ∷ ("evaluation_at", time r.evaluation_at)
            ∷ ("serialization_version", text r.serialization_version)
            ∷ []),
      )
      ∷ ("revocation_reference", revocation_reference_document i.revocation)
      ∷ ("schema_version", text r.schema_version)
      ∷ ("superseded_lease_id", opt_text i.superseded_lease_id)
      ∷ ("work_item_id", text r.work_item_id)
      ∷ ("workload_context_id", text r.workload_context_id)
      ∷ [])

module _ ⦃p : Interpreter⦄ where
  -- The event's arguments, with both contents.
  unfoldable pub event_arguments :
      EventInput → DateTime → Result ExecutionLeaseError (ExecutionLeaseEvent × Bytes × Bytes)
  event_arguments i recorded_at = do
    input_content ←
        canonical_input_content i.request i.authorization i.revocation i.policy i.generation
    let input_digest = namespaced_digest input_digest_namespace input_content
    lineage_id ← lineage_identity (lineage_key i.request)
    lease_id ← lease_identity lineage_id i.generation
    event_content ← canonical_content invalid (event_document i input_digest lease_id lineage_id)
    let event_digest = namespaced_digest event_digest_namespace event_content
    id_content ← canonical_content invalid (
        document (
          ("canonical_event_digest", text event_digest)
          ∷ ("lineage_id", text lineage_id)
          ∷ ("lineage_version", int i.lineage_version)
          ∷ []))
    authorization ←
        optionally
          (λ (a : RetainedAuthorizationEvidence).
            evidence_reference invalid a.authorization_id a.canonical_digest)
          i.authorization
    revocation ←
        optionally
          (λ (e : OpaqueRetainedRevocationEvidence).
            evidence_reference invalid e.evidence_id e.canonical_digest)
          i.revocation
    policy ← evidence_reference invalid i.policy.policy_id i.policy.canonical_digest
    metadata ← lease_reconstruction_metadata (record {
      authorization_history_boundary = i.request.authorization_history_boundary;
      evaluation_at = i.request.evaluation_at;
      clock_source_id = i.request.clock_source_id;
      clock_source_version = i.request.clock_source_version;
      configuration_version = i.request.configuration_version;
      component_version = supported_execution_lease_component_version;
      serialization_version = supported_serialization_version;
    })
    ok (
      record {
        event_id = namespaced_digest event_id_namespace id_content;
        lease_id = lease_id;
        lineage_id = lineage_id;
        organization_id = i.request.organization_id;
        workload_context_id = i.request.workload_context_id;
        plan_id = i.request.plan_id;
        work_item_id = i.request.work_item_id;
        permission_family = i.request.permission_family;
        event_type = i.event_type;
        permissions = permissions_of i.request i.authorization;
        authorization_reference = authorization;
        revocation_reference = revocation;
        policy_reference = policy;
        policy_version = i.policy.policy_version;
        generation = i.generation;
        lineage_version = i.lineage_version;
        prior_event_id = i.request.prior_event_id;
        superseded_lease_id = i.superseded_lease_id;
        effective_at = effective_of i.request i.revocation;
        expires_at = expiry_of i.request i.authorization;
        canonical_input_digest = input_digest;
        canonical_event_digest = event_digest;
        idempotency_identity = i.idempotency;
        reconstruction_metadata = metadata;
        recorded_at = recorded_at;
        schema_version = supported_execution_lease_schema_version;
      },
      input_content,
      event_content,
    )

  -- The event's constructor, called on its arguments.
  abbrev pub construct :
      ExecutionLeaseEvent × Bytes × Bytes
      → Result ExecutionLeaseError (ExecutionLeaseEvent × Bytes × Bytes)
  construct (arguments, input_content, event_content) = do
    event ← execution_lease_event arguments
    ok (event, input_content, event_content)

  unfoldable pub build_execution_lease_event :
      EventInput → DateTime → Result ExecutionLeaseError (ExecutionLeaseEvent × Bytes × Bytes)
  build_execution_lease_event i recorded_at = event_arguments i recorded_at >>= construct
