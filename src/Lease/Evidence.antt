-- ===== src/Lease/Evidence.antt =====
-- app/runtime/execution_lease/evidence.py: authorization and revocation evidence, and their sources.
use edgeiq.Base.{
  ℕ, String, Bool, not, ◌&&◌, List, [], ◌∷◌, Result, ok, ◌>>=◌, ◌>>◌, guard, ltb, Eq, ◌==◌, text_eq,
  map, String_discrete,
}
use native.Mathlib.Decide.{ℕ_discrete}
use edgeiq.Platform.{
  Bytes, DateTime, DateTime_discrete, Interpreter, SourceKind, required_text, sha256_hex, utc_time,
  before, bool, int, text, time, array, enums, document, canonical_content, namespaced_digest,
}
use edgeiq.Lease.Domain.{
  ExecutionLeaseError, invalid, digest_mismatch, version_unsupported, LeasePermission,
  LeasePermission_discrete, permission_text, sorted_permissions, unique_permissions, no_permissions,
}

abbrev authorization_namespace : String
authorization_namespace = "edgeiq.authorization-checkpoint-evidence.v1"

abbrev revocation_namespace : String
revocation_namespace = "edgeiq.opaque-retained-revocation-evidence.v1"

abbrev supported_authorization_schema : String
supported_authorization_schema = "authorization-checkpoint-evidence.v1"

abbrev supported_authorization_component : String
supported_authorization_component = "authorization-checkpoint.service.v1"

abbrev supported_revocation_schema : String
supported_revocation_schema = "opaque-retained-revocation-evidence.v1"

abbrev supported_revocation_component : String
supported_revocation_component = "retained-evidence-port.v1"

pub record RetainedAuthorizationEvidence : Type 0 where
  pub authorization_id : String
  pub organization_id : String
  pub workload_context_id : String
  pub principal_id : String
  pub plan_id : String
  pub work_item_id : String
  pub permission_ceiling : List LeasePermission
  pub approved : Bool
  pub evaluated_at : DateTime
  pub effective_at : DateTime
  pub expires_at : DateTime
  pub history_boundary : String
  pub policy_id : String
  pub policy_version : String
  pub policy_digest : String
  pub decision_version : ℕ
  pub clock_source_id : String
  pub clock_source_version : String
  pub correlation_id : String
  pub causation_id : String
  pub schema_version : String
  pub component_version : String
  pub serialization_version : String
  pub configuration_version : String
  pub canonical_digest : String
  pub canonical_content : Bytes

pub record OpaqueRetainedRevocationEvidence : Type 0 where
  pub evidence_id : String
  pub organization_id : String
  pub workload_context_id : String
  pub plan_id : String
  pub work_item_id : String
  pub permission_family : String
  pub target_lease_id : String
  pub target_event_id : String
  pub effective_at : DateTime
  pub schema_version : String
  pub component_version : String
  pub serialization_version : String
  pub canonical_digest : String
  pub canonical_content : Bytes

unfoldable pub RetainedAuthorizationEvidence_discrete : Discrete RetainedAuthorizationEvidence
RetainedAuthorizationEvidence_discrete =
    hlevel (String_discrete, ℕ_discrete, DateTime_discrete, LeasePermission_discrete)

instance abbrev pub authorization_eq : Eq RetainedAuthorizationEvidence
authorization_eq = record { dec = RetainedAuthorizationEvidence_discrete }

unfoldable pub OpaqueRetainedRevocationEvidence_discrete : Discrete OpaqueRetainedRevocationEvidence
OpaqueRetainedRevocationEvidence_discrete = hlevel (String_discrete, ℕ_discrete, DateTime_discrete)

instance abbrev pub revocation_eq : Eq OpaqueRetainedRevocationEvidence
revocation_eq = record { dec = OpaqueRetainedRevocationEvidence_discrete }

module _ ⦃p : Interpreter⦄ where
  -- The keyword arguments are the fields of a record, whose digest and content are not read.
  unfoldable pub build_authorization_evidence :
      RetainedAuthorizationEvidence → Result ExecutionLeaseError RetainedAuthorizationEvidence
  build_authorization_evidence a = do
    let permissions = sorted_permissions a.permission_ceiling
    guard (not (no_permissions permissions) && unique_permissions permissions) invalid
    effective ← utc_time invalid a.effective_at
    expires ← utc_time invalid a.expires_at
    evaluated ← utc_time invalid a.evaluated_at
    guard (before effective expires) invalid
    guard (ltb 0 a.decision_version) invalid
    authorization_id' ← required_text invalid a.authorization_id
    configuration_version' ← required_text invalid a.configuration_version
    causation_id' ← required_text invalid a.causation_id
    clock_source_id' ← required_text invalid a.clock_source_id
    clock_source_version' ← required_text invalid a.clock_source_version
    correlation_id' ← required_text invalid a.correlation_id
    history_boundary' ← required_text invalid a.history_boundary
    organization_id' ← required_text invalid a.organization_id
    plan_id' ← required_text invalid a.plan_id
    policy_digest' ← sha256_hex invalid a.policy_digest
    policy_id' ← required_text invalid a.policy_id
    policy_version' ← required_text invalid a.policy_version
    principal_id' ← required_text invalid a.principal_id
    work_item_id' ← required_text invalid a.work_item_id
    workload_context_id' ← required_text invalid a.workload_context_id
    content ← canonical_content invalid (
        document (
          ("approved", bool a.approved)
          ∷ ("authorization_id", text authorization_id')
          ∷ ("component_version", text a.component_version)
          ∷ ("configuration_version", text configuration_version')
          ∷ ("causation_id", text causation_id')
          ∷ ("clock_source_id", text clock_source_id')
          ∷ ("clock_source_version", text clock_source_version')
          ∷ ("correlation_id", text correlation_id')
          ∷ ("decision_version", int a.decision_version)
          ∷ ("effective_at", time effective)
          ∷ ("evaluated_at", time evaluated)
          ∷ ("expires_at", time expires)
          ∷ ("history_boundary", text history_boundary')
          ∷ ("organization_id", text organization_id')
          ∷ ("permission_ceiling", array (enums (map permission_text permissions)))
          ∷ ("plan_id", text plan_id')
          ∷ ("policy_digest", text policy_digest')
          ∷ ("policy_id", text policy_id')
          ∷ ("policy_version", text policy_version')
          ∷ ("principal_id", text principal_id')
          ∷ ("schema_version", text a.schema_version)
          ∷ ("serialization_version", text a.serialization_version)
          ∷ ("work_item_id", text work_item_id')
          ∷ ("workload_context_id", text workload_context_id')
          ∷ []))
    ok (record a {
      authorization_id = authorization_id';
      configuration_version = configuration_version';
      causation_id = causation_id';
      clock_source_id = clock_source_id';
      clock_source_version = clock_source_version';
      correlation_id = correlation_id';
      history_boundary = history_boundary';
      organization_id = organization_id';
      plan_id = plan_id';
      policy_digest = policy_digest';
      policy_id = policy_id';
      policy_version = policy_version';
      principal_id = principal_id';
      work_item_id = work_item_id';
      workload_context_id = workload_context_id';
      permission_ceiling = permissions;
      effective_at = effective;
      expires_at = expires;
      evaluated_at = evaluated;
      canonical_digest = namespaced_digest authorization_namespace content;
      canonical_content = content;
    })

  unfoldable pub build_opaque_revocation_evidence :
      OpaqueRetainedRevocationEvidence → Result ExecutionLeaseError OpaqueRetainedRevocationEvidence
  build_opaque_revocation_evidence a = do
    evidence_id' ← required_text invalid a.evidence_id
    effective ← utc_time invalid a.effective_at
    organization_id' ← required_text invalid a.organization_id
    permission_family' ← required_text invalid a.permission_family
    plan_id' ← required_text invalid a.plan_id
    target_event_id' ← required_text invalid a.target_event_id
    target_lease_id' ← required_text invalid a.target_lease_id
    work_item_id' ← required_text invalid a.work_item_id
    workload_context_id' ← required_text invalid a.workload_context_id
    content ← canonical_content invalid (
        document (
          ("component_version", text a.component_version)
          ∷ ("evidence_id", text evidence_id')
          ∷ ("effective_at", time effective)
          ∷ ("organization_id", text organization_id')
          ∷ ("permission_family", text permission_family')
          ∷ ("plan_id", text plan_id')
          ∷ ("schema_version", text a.schema_version)
          ∷ ("serialization_version", text a.serialization_version)
          ∷ ("target_event_id", text target_event_id')
          ∷ ("target_lease_id", text target_lease_id')
          ∷ ("work_item_id", text work_item_id')
          ∷ ("workload_context_id", text workload_context_id')
          ∷ []))
    ok (record a {
      evidence_id = evidence_id';
      organization_id = organization_id';
      permission_family = permission_family';
      plan_id = plan_id';
      target_event_id = target_event_id';
      target_lease_id = target_lease_id';
      work_item_id = work_item_id';
      workload_context_id = workload_context_id';
      effective_at = effective;
      canonical_digest = namespaced_digest revocation_namespace content;
      canonical_content = content;
    })

  unfoldable pub validate_authorization :
      RetainedAuthorizationEvidence → Result ExecutionLeaseError (Unit {0})
  validate_authorization value = do
    guard
        (value.schema_version == supported_authorization_schema
          && value.component_version == supported_authorization_component
          && value.serialization_version == "canonical-json.v1")
        version_unsupported
    rebuilt ← build_authorization_evidence value
    guard (rebuilt == value) digest_mismatch

  unfoldable pub validate_opaque_revocation :
      OpaqueRetainedRevocationEvidence → Result ExecutionLeaseError (Unit {0})
  validate_opaque_revocation value = do
    guard
        (value.schema_version == supported_revocation_schema
          && value.component_version == supported_revocation_component
          && value.serialization_version == "canonical-json.v1")
        version_unsupported
    rebuilt ← build_opaque_revocation_evidence value
    guard (rebuilt == value) digest_mismatch

  abbrev pub authorization_source : SourceKind ExecutionLeaseError RetainedAuthorizationEvidence
  authorization_source = record {
    identity = λ value. value.authorization_id;
    validator = validate_authorization;
    organization = λ value. value.organization_id;
    workload = λ value. value.workload_context_id;
  }

  abbrev pub revocation_source : SourceKind ExecutionLeaseError OpaqueRetainedRevocationEvidence
  revocation_source = record {
    identity = λ value. value.evidence_id;
    validator = validate_opaque_revocation;
    organization = λ value. value.organization_id;
    workload = λ value. value.workload_context_id;
  }
