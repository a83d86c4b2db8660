-- ===== src/Claim/Domain/Request.antt =====
-- `WorkClaimRequest.__post_init__`.
use edgeiq.Base.{◌||◌, Result, ok, ◌>>=◌, ◌>>◌, guard, ◌==◌, ◌/=◌, text_eq, is_some, is_none}
use edgeiq.Platform.{Interpreter, required_text, optional_text, sha256_hex, utc_time}
use edgeiq.Claim.Domain.Types.{
  WorkClaimError, invalid, version_unsupported, WorkClaimRequest, release, operation_eq,
  supported_work_claim_schema_version, supported_work_claim_component_version,
  supported_serialization_version,
}

module _ ⦃p : Interpreter⦄ where
  -- The expected version is a natural number: the source also rejects a negative one, and values
  -- that are no `int`. A test `if a: raise` is `guard (not a)`.
  unfoldable pub work_claim_request : WorkClaimRequest → Result WorkClaimError WorkClaimRequest
  work_claim_request r = do
    organization ← required_text invalid r.organization_id
    workload ← required_text invalid r.workload_context_id
    plan ← required_text invalid r.plan_id
    item ← required_text invalid r.work_item_id
    dispatch ← required_text invalid r.dispatch_decision_id
    claimant ← required_text invalid r.claimant_evidence_id
    candidate ← required_text invalid r.selected_candidate_id
    policy ← required_text invalid r.claim_policy_id
    policy_version ← required_text invalid r.claim_policy_version
    boundary ← required_text invalid r.evidence_boundary
    clock ← required_text invalid r.clock_source_id
    clock_version ← required_text invalid r.clock_source_version
    configuration ← required_text invalid r.configuration_version
    key ← required_text invalid r.idempotency_key
    dispatch_digest ← sha256_hex invalid r.dispatch_decision_digest
    claimant_digest ← sha256_hex invalid r.claimant_evidence_digest
    policy_digest ← sha256_hex invalid r.claim_policy_digest
    semantic ← utc_time invalid r.semantic_at
    reason ← optional_text invalid r.release_reason
    guard (r.operation /= release || is_some reason) invalid
    guard (r.operation == release || is_none reason) invalid
    guard (r.schema_version == supported_work_claim_schema_version) version_unsupported
    guard (r.component_version == supported_work_claim_component_version) version_unsupported
    guard (r.serialization_version == supported_serialization_version) version_unsupported
    ok (record r {
      organization_id = organization;
      workload_context_id = workload;
      plan_id = plan;
      work_item_id = item;
      dispatch_decision_id = dispatch;
      dispatch_decision_digest = dispatch_digest;
      claimant_evidence_id = claimant;
      claimant_evidence_digest = claimant_digest;
      selected_candidate_id = candidate;
      claim_policy_id = policy;
      claim_policy_version = policy_version;
      claim_policy_digest = policy_digest;
      evidence_boundary = boundary;
      semantic_at = semantic;
      clock_source_id = clock;
      clock_source_version = clock_version;
      configuration_version = configuration;
      idempotency_key = key;
      release_reason = reason;
    })
