-- ===== src/Lease/Domain/Event.antt =====
-- `LeaseReconstructionMetadata.__post_init__`, `ExecutionLeaseEvent.__post_init__` and `applicable_at`.
use edgeiq.Base.{
  Bool, true, false, not, ◌&&◌, ◌||◌, Option, none, some, Result, ok, ◌>>=◌, ◌>>◌, guard, ltb, ◌==◌,
  ◌/=◌, text_eq, is_some, is_none,
}
use edgeiq.Platform.{
  Interpreter, DateTime, before, at_most, required_text, optional_text, sha256_hex, utc_time,
  optional_utc_time,
}
use edgeiq.Lease.Domain.Types.{
  ExecutionLeaseError, invalid, version_unsupported, ExecutionLeaseEvent, LeaseEventType,
  LeaseReconstructionMetadata, granted, revoked, superseded, event_type_eq,
  supported_execution_lease_schema_version, supported_execution_lease_component_version,
  supported_serialization_version, supported_permission_family,
}
use edgeiq.Lease.Domain.Permissions.{sorted_permissions, unique_permissions, no_permissions}

abbrev follows : Option DateTime → DateTime → Bool
follows none t = false
follows (some expires) t = before t expires

-- Of an event whose fields are normal: the evidence, the cause and the superseded lease of its type.
evidence_complete : ExecutionLeaseEvent → LeaseEventType → Bool
evidence_complete n revoked =
    no_permissions n.permissions
    && is_none n.authorization_reference
    && is_some n.revocation_reference
    && is_none n.expires_at
evidence_complete n _ =
    not (no_permissions n.permissions)
    && is_some n.authorization_reference
    && is_none n.revocation_reference
    && follows n.expires_at n.effective_at

event_checks : ExecutionLeaseEvent → Result ExecutionLeaseError (Unit {0})
unfolding evidence_complete
event_checks n = do
  guard (evidence_complete n n.event_type) invalid
  guard (n.event_type /= granted || is_none n.prior_event_id) invalid
  guard (n.event_type == granted || is_some n.prior_event_id) invalid
  guard (n.event_type /= superseded || is_some n.superseded_lease_id) invalid
  guard (n.event_type == superseded || is_none n.superseded_lease_id) invalid

module _ ⦃p : Interpreter⦄ where
  unfoldable pub lease_reconstruction_metadata :
      LeaseReconstructionMetadata → Result ExecutionLeaseError LeaseReconstructionMetadata
  lease_reconstruction_metadata m = do
    boundary ← optional_text invalid m.authorization_history_boundary
    evaluation ← utc_time invalid m.evaluation_at
    clock ← required_text invalid m.clock_source_id
    clock_version ← required_text invalid m.clock_source_version
    configuration ← required_text invalid m.configuration_version
    guard
        (m.component_version == supported_execution_lease_component_version
          && m.serialization_version == supported_serialization_version)
        version_unsupported
    ok (record m {
      authorization_history_boundary = boundary;
      evaluation_at = evaluation;
      clock_source_id = clock;
      clock_source_version = clock_version;
      configuration_version = configuration;
    })

  normal_event : ExecutionLeaseEvent → Result ExecutionLeaseError ExecutionLeaseEvent
  normal_event e = do
    event_id' ← sha256_hex invalid e.event_id
    lease ← sha256_hex invalid e.lease_id
    lineage ← sha256_hex invalid e.lineage_id
    input_digest ← sha256_hex invalid e.canonical_input_digest
    event_digest ← sha256_hex invalid e.canonical_event_digest
    identity ← sha256_hex invalid e.idempotency_identity
    organization ← required_text invalid e.organization_id
    workload ← required_text invalid e.workload_context_id
    plan ← required_text invalid e.plan_id
    item ← required_text invalid e.work_item_id
    family ← required_text invalid e.permission_family
    policy_version' ← required_text invalid e.policy_version
    guard (family == supported_permission_family) version_unsupported
    guard (unique_permissions (sorted_permissions e.permissions)) invalid
    guard (ltb 0 e.generation) invalid
    guard (ltb 0 e.lineage_version) invalid
    prior ← optional_text invalid e.prior_event_id
    superseded_lease ← optional_text invalid e.superseded_lease_id
    effective ← utc_time invalid e.effective_at
    expires ← optional_utc_time invalid e.expires_at
    recorded ← utc_time invalid e.recorded_at
    ok (record e {
      event_id = event_id';
      lease_id = lease;
      lineage_id = lineage;
      organization_id = organization;
      workload_context_id = workload;
      plan_id = plan;
      work_item_id = item;
      permission_family = family;
      permissions = sorted_permissions e.permissions;
      policy_version = policy_version';
      prior_event_id = prior;
      superseded_lease_id = superseded_lease;
      effective_at = effective;
      expires_at = expires;
      canonical_input_digest = input_digest;
      canonical_event_digest = event_digest;
      idempotency_identity = identity;
      recorded_at = recorded;
    })

  unfoldable pub execution_lease_event :
      ExecutionLeaseEvent → Result ExecutionLeaseError ExecutionLeaseEvent
  unfolding normal_event event_checks
  execution_lease_event e = do
    n ← normal_event e
    event_checks n
    guard (e.schema_version == supported_execution_lease_schema_version) version_unsupported
    ok n

-- `effective_at <= evaluated < expires_at`, where there is an expiry.
abbrev covers : ExecutionLeaseEvent → Option DateTime → DateTime → Bool
covers e none t = false
covers e (some expires) t = at_most e.effective_at t && before t expires

abbrev is_authority : LeaseEventType → Bool
is_authority revoked = false
is_authority _ = true

unfoldable pub applicable_at : ExecutionLeaseEvent → DateTime → Result ExecutionLeaseError Bool
applicable_at e t = do
  evaluated ← utc_time invalid t
  ok (is_authority e.event_type && covers e e.expires_at evaluated)
