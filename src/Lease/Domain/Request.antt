-- ===== src/Lease/Domain/Request.antt =====
-- `ExecutionLeaseRequest.__post_init__`.
use edgeiq.Base.{
  String, Bool, false, not, ◌&&◌, ◌||◌, Option, none, some, Result, ok, ◌>>=◌, ◌>>◌, guard,
  optionally, ◌==◌, ◌/=◌, text_eq, is_some, is_none,
}
use edgeiq.Platform.{
  Interpreter, DateTime, before, required_text, optional_text, sha256_hex, utc_time,
  optional_utc_time,
}
use edgeiq.Lease.Domain.Types.{
  ExecutionLeaseError, invalid, version_unsupported, ExecutionLeaseRequest, LeaseOperation, grant,
  revoke, operation_eq, supported_execution_lease_schema_version,
  supported_execution_lease_component_version, supported_serialization_version,
  supported_permission_family,
}
use edgeiq.Lease.Domain.Permissions.{sorted_permissions, unique_permissions, no_permissions}

-- A string is true in Python when it is not empty.
abbrev truthy : Option String → Bool
truthy none = false
truthy (some s) = s /= ""

-- `expires_at` is given and after `effective_at`.
abbrev follows : Option DateTime → DateTime → Bool
follows none t = false
follows (some expires) t = before t expires

-- Of a request whose fields are normal: what its operation asks for, and forbids.
operation_checks : ExecutionLeaseRequest → LeaseOperation → Result ExecutionLeaseError (Unit {0})
operation_checks n revoke = do
  guard
      (not (
          truthy n.authorization_evidence_id
          || truthy n.authorization_evidence_digest
          || truthy n.authorization_history_boundary)
        && no_permissions n.requested_permissions
        && is_none n.expires_at)
      invalid
  guard
      (truthy n.prior_event_id
        && truthy n.revocation_evidence_id
        && truthy n.revocation_evidence_digest)
      invalid
operation_checks n operation = do
  guard
      (truthy n.authorization_evidence_id
        && truthy n.authorization_evidence_digest
        && truthy n.authorization_history_boundary
        && not (no_permissions n.requested_permissions)
        && is_some n.expires_at)
      invalid
  guard (is_none n.revocation_evidence_id && is_none n.revocation_evidence_digest) invalid
  guard (follows n.expires_at n.effective_at) invalid
  guard (operation /= grant || is_none n.prior_event_id) invalid
  guard (operation == grant || is_some n.prior_event_id) invalid

module _ ⦃p : Interpreter⦄ where
  normal_request : ExecutionLeaseRequest → Result ExecutionLeaseError ExecutionLeaseRequest
  normal_request r = do
    organization ← required_text invalid r.organization_id
    workload ← required_text invalid r.workload_context_id
    plan ← required_text invalid r.plan_id
    item ← required_text invalid r.work_item_id
    family ← required_text invalid r.permission_family
    clock ← required_text invalid r.clock_source_id
    clock_version ← required_text invalid r.clock_source_version
    policy ← required_text invalid r.lease_policy_id
    policy_version ← required_text invalid r.lease_policy_version
    configuration ← required_text invalid r.configuration_version
    key ← required_text invalid r.idempotency_key
    guard (family == supported_permission_family) version_unsupported
    guard (unique_permissions (sorted_permissions r.requested_permissions)) invalid
    authorization ← optional_text invalid r.authorization_evidence_id
    boundary ← optional_text invalid r.authorization_history_boundary
    prior ← optional_text invalid r.prior_event_id
    revocation ← optional_text invalid r.revocation_evidence_id
    authorization_digest ← optionally (sha256_hex invalid) r.authorization_evidence_digest
    revocation_digest ← optionally (sha256_hex invalid) r.revocation_evidence_digest
    policy_digest ← sha256_hex invalid r.lease_policy_digest
    effective ← utc_time invalid r.effective_at
    evaluation ← utc_time invalid r.evaluation_at
    expires ← optional_utc_time invalid r.expires_at
    ok (record r {
      organization_id = organization;
      workload_context_id = workload;
      plan_id = plan;
      work_item_id = item;
      permission_family = family;
      requested_permissions = sorted_permissions r.requested_permissions;
      authorization_evidence_id = authorization;
      authorization_evidence_digest = authorization_digest;
      authorization_history_boundary = boundary;
      prior_event_id = prior;
      revocation_evidence_id = revocation;
      revocation_evidence_digest = revocation_digest;
      effective_at = effective;
      expires_at = expires;
      evaluation_at = evaluation;
      clock_source_id = clock;
      clock_source_version = clock_version;
      lease_policy_id = policy;
      lease_policy_version = policy_version;
      lease_policy_digest = policy_digest;
      configuration_version = configuration;
      idempotency_key = key;
    })

  -- The expected version is a natural number: the source also rejects a negative one, and values
  -- that are no `int`.
  unfoldable pub execution_lease_request :
      ExecutionLeaseRequest → Result ExecutionLeaseError ExecutionLeaseRequest
  unfolding operation_checks normal_request
  execution_lease_request r = do
    n ← normal_request r
    operation_checks n n.operation
    guard (r.schema_version == supported_execution_lease_schema_version) version_unsupported
    guard (r.component_version == supported_execution_lease_component_version) version_unsupported
    guard (r.serialization_version == supported_serialization_version) version_unsupported
    ok n
