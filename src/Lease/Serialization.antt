-- ===== src/Lease/Serialization.antt =====
-- app/runtime/execution_lease/serialization.py: identities, the canonical input and the verification.
pub mod Build
use edgeiq.Base.{
  ℕ, String, Option, none, some, List, [], ◌∷◌, Result, ok, ◌>>=◌, ◌>>◌, guard, ◌==◌, text_eq, map,
}
use edgeiq.Platform.{
  Bytes, Interpreter, Value, null, bool, int, text, enum, time, array, texts, enums, opt_text,
  opt_time, document, canonical_content, namespaced_digest,
}
use edgeiq.Lease.Domain.{
  ExecutionLeaseError, invalid, digest_mismatch, ExecutionLeaseRequest, ExecutionLeaseEvent,
  LineageKey, lineage_key, operation_text, permission_text,
}
use edgeiq.Lease.Evidence.{RetainedAuthorizationEvidence, OpaqueRetainedRevocationEvidence}
use edgeiq.Lease.Policy.{RegisteredExecutionLeasePolicy}

abbrev lineage_id_namespace : String
lineage_id_namespace = "edgeiq.execution-lease-lineage-id.v1"

abbrev lease_id_namespace : String
lease_id_namespace = "edgeiq.execution-lease-id.v1"

abbrev pub input_digest_namespace : String
input_digest_namespace = "edgeiq.execution-lease-input.v1"

abbrev pub event_digest_namespace : String
event_digest_namespace = "edgeiq.execution-lease-event.v1"

abbrev pub event_id_namespace : String
event_id_namespace = "edgeiq.execution-lease-event-id.v1"

abbrev idempotency_namespace : String
idempotency_namespace = "edgeiq.execution-lease-idempotency.v1"

abbrev key_texts : LineageKey → List String
key_texts (organization, workload, plan, item, family) =
    organization ∷ workload ∷ plan ∷ item ∷ family ∷ []

abbrev authorization_document : Option RetainedAuthorizationEvidence → Value
authorization_document none = null
authorization_document (some a) = document (
    ("approved", bool a.approved)
    ∷ ("authorization_id", text a.authorization_id)
    ∷ ("canonical_digest", text a.canonical_digest)
    ∷ ("component_version", text a.component_version)
    ∷ ("configuration_version", text a.configuration_version)
    ∷ ("causation_id", text a.causation_id)
    ∷ ("clock_source_id", text a.clock_source_id)
    ∷ ("clock_source_version", text a.clock_source_version)
    ∷ ("correlation_id", text a.correlation_id)
    ∷ ("decision_version", int a.decision_version)
    ∷ ("effective_at", time a.effective_at)
    ∷ ("evaluated_at", time a.evaluated_at)
    ∷ ("expires_at", time a.expires_at)
    ∷ ("history_boundary", text a.history_boundary)
    ∷ ("organization_id", text a.organization_id)
    ∷ ("permission_ceiling", array (enums (map permission_text a.permission_ceiling)))
    ∷ ("plan_id", text a.plan_id)
    ∷ ("policy_digest", text a.policy_digest)
    ∷ ("policy_id", text a.policy_id)
    ∷ ("policy_version", text a.policy_version)
    ∷ ("principal_id", text a.principal_id)
    ∷ ("schema_version", text a.schema_version)
    ∷ ("serialization_version", text a.serialization_version)
    ∷ ("work_item_id", text a.work_item_id)
    ∷ ("workload_context_id", text a.workload_context_id)
    ∷ [])

abbrev revocation_document : Option OpaqueRetainedRevocationEvidence → Value
revocation_document none = null
revocation_document (some e) = document (
    ("canonical_digest", text e.canonical_digest)
    ∷ ("component_version", text e.component_version)
    ∷ ("evidence_id", text e.evidence_id)
    ∷ ("effective_at", time e.effective_at)
    ∷ ("schema_version", text e.schema_version)
    ∷ ("serialization_version", text e.serialization_version)
    ∷ ("target_event_id", text e.target_event_id)
    ∷ ("target_lease_id", text e.target_lease_id)
    ∷ [])

abbrev canonical_input_document :
    ExecutionLeaseRequest
    → Option RetainedAuthorizationEvidence
    → Option OpaqueRetainedRevocationEvidence
    → RegisteredExecutionLeasePolicy
    → ℕ
    → Value
canonical_input_document r authorization revocation policy generation = document (
    ("authorization_evidence", authorization_document authorization)
    ∷ ("clock_source_id", text r.clock_source_id)
    ∷ ("clock_source_version", text r.clock_source_version)
    ∷ ("component_version", text r.component_version)
    ∷ ("configuration_version", text r.configuration_version)
    ∷ ("effective_at", time r.effective_at)
    ∷ ("evaluation_at", time r.evaluation_at)
    ∷ ("expected_lineage_version", int r.expected_lineage_version)
    ∷ ("expires_at", opt_time r.expires_at)
    ∷ ("idempotency_key", text r.idempotency_key)
    ∷ (
      "lease_policy",
      document (
          ("canonical_digest", text policy.canonical_digest)
          ∷ ("policy_id", text policy.policy_id)
          ∷ ("policy_version", text policy.policy_version)
          ∷ []),
    )
    ∷ ("operation", enum (operation_text r.operation))
    ∷ ("organization_id", text r.organization_id)
    ∷ ("owner_resolved_generation", int generation)
    ∷ ("permission_family", text r.permission_family)
    ∷ ("plan_id", text r.plan_id)
    ∷ ("prior_event_id", opt_text r.prior_event_id)
    ∷ ("requested_permissions", array (enums (map permission_text r.requested_permissions)))
    ∷ ("revocation_evidence", revocation_document revocation)
    ∷ ("schema_version", text r.schema_version)
    ∷ ("serialization_version", text r.serialization_version)
    ∷ ("work_item_id", text r.work_item_id)
    ∷ ("workload_context_id", text r.workload_context_id)
    ∷ [])

module _ ⦃p : Interpreter⦄ where
  unfoldable pub lineage_identity : LineageKey → Result ExecutionLeaseError String
  lineage_identity key = do
    content ←
        canonical_content invalid (document (("lineage_key", array (texts (key_texts key))) ∷ []))
    ok (namespaced_digest lineage_id_namespace content)

  unfoldable pub lease_identity : String → ℕ → Result ExecutionLeaseError String
  lease_identity lineage_id generation = do
    content ←
        canonical_content invalid
          (document (("generation", int generation) ∷ ("lineage_id", text lineage_id) ∷ []))
    ok (namespaced_digest lease_id_namespace content)

  unfoldable pub idempotency_identity : ExecutionLeaseRequest → Result ExecutionLeaseError String
  idempotency_identity r = do
    content ← canonical_content invalid (
        document (
          ("idempotency_key", text r.idempotency_key)
          ∷ ("lineage_key", array (texts (key_texts (lineage_key r))))
          ∷ ("operation", enum (operation_text r.operation))
          ∷ ("organization_id", text r.organization_id)
          ∷ []))
    ok (namespaced_digest idempotency_namespace content)

  unfoldable pub canonical_input_content :
      ExecutionLeaseRequest
      → Option RetainedAuthorizationEvidence
      → Option OpaqueRetainedRevocationEvidence
      → RegisteredExecutionLeasePolicy
      → ℕ
      → Result ExecutionLeaseError Bytes
  canonical_input_content r authorization revocation policy generation =
      canonical_content invalid
        (canonical_input_document r authorization revocation policy generation)

  unfoldable pub verify_recorded_content :
      ExecutionLeaseEvent → Bytes → Bytes → Result ExecutionLeaseError (Unit {0})
  verify_recorded_content event input_content event_content = do
    guard (namespaced_digest input_digest_namespace input_content == event.canonical_input_digest)
        digest_mismatch
    guard (namespaced_digest event_digest_namespace event_content == event.canonical_event_digest)
        digest_mismatch
