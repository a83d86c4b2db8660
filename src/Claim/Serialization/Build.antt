-- ===== src/Claim/Serialization/Build.antt =====
-- `build_work_claim_event` of app/runtime/work_claim/serialization.py. `recorded_at` is the retained
-- time of a replay, or else the clock's time.
pub mod Facts
pub mod Built
use edgeiq.Base.{ℕ, String, Option, none, some, [], ◌∷◌, Result, ok, ◌>>=◌}
use edgeiq.Platform.{
  Bytes, DateTime, Interpreter, text, int, document, canonical_content, namespaced_digest,
  evidence_reference, add_seconds,
}
use edgeiq.Dispatch.Domain.{DispatchDecisionRecord}
use edgeiq.Claim.Domain.{
  WorkClaimError, invalid, overflow, WorkClaimRequest, WorkClaimEvent, lineage_key,
  work_claim_event, supported_work_claim_schema_version, supported_work_claim_component_version,
  supported_serialization_version,
}
use edgeiq.Claim.Evidence.{RetainedClaimantEvidence}
use edgeiq.Claim.Policy.{RegisteredWorkClaimPolicy, WorkClaimDecision}
use edgeiq.Claim.Serialization.{
  input_digest_namespace, event_digest_namespace, event_id_namespace, event_document,
  canonical_input_content, lineage_identity,
}

-- `None if delta is None else semantic_at + timedelta(seconds=delta)`.
abbrev expiry : DateTime → Option ℕ → Result WorkClaimError (Option DateTime)
expiry t none = ok none
expiry t (some seconds) = do expires ← add_seconds overflow t seconds; ok (some expires)

module _ ⦃p : Interpreter⦄ where
  -- The event's arguments, but for `recorded_at`, which is given; with both contents.
  unfoldable pub event_arguments :
      WorkClaimRequest
      → DispatchDecisionRecord
      → RetainedClaimantEvidence
      → RegisteredWorkClaimPolicy
      → WorkClaimDecision
      → ℕ
      → String
      → DateTime
      → Result WorkClaimError (WorkClaimEvent × Bytes × Bytes)
  event_arguments request dispatch claimant policy d lineage_version identity recorded_at = do
    input_content ← canonical_input_content request dispatch claimant policy
    let input_digest = namespaced_digest input_digest_namespace input_content
    lineage_id ← lineage_identity (lineage_key request)
    expires_at ← expiry request.semantic_at d.expires_at_delta_seconds
    event_content ← canonical_content invalid (
        event_document request dispatch claimant policy d lineage_id input_digest identity
          expires_at lineage_version)
    let event_digest = namespaced_digest event_digest_namespace event_content
    id_content ← canonical_content invalid (
        document (
          ("canonical_event_digest", text event_digest)
          ∷ ("lineage_id", text lineage_id)
          ∷ ("lineage_version", int lineage_version)
          ∷ []))
    dispatch_reference ←
        evidence_reference invalid dispatch.decision.dispatch_decision_id
          dispatch.decision.canonical_decision_digest
    claimant_reference ← evidence_reference invalid claimant.evidence_id claimant.canonical_digest
    policy_reference ← evidence_reference invalid policy.policy_id policy.canonical_digest
    ok (
      record {
        event_id = namespaced_digest event_id_namespace id_content;
        lineage_id = lineage_id;
        organization_id = request.organization_id;
        workload_context_id = request.workload_context_id;
        plan_id = request.plan_id;
        work_item_id = request.work_item_id;
        event_type = d.event_type;
        outcome = d.outcome;
        reason_codes = d.reason_codes;
        dispatch_reference = dispatch_reference;
        claimant_reference = claimant_reference;
        claimant_id = claimant.claimant_id;
        selected_candidate_id = request.selected_candidate_id;
        claim_policy_reference = policy_reference;
        claim_policy_version = policy.policy_version;
        lineage_version = lineage_version;
        generation = d.generation;
        fence = d.fence;
        semantic_at = request.semantic_at;
        expires_at = expires_at;
        release_reason = request.release_reason;
        causal_event_id = d.causal_event_id;
        canonical_input_digest = input_digest;
        canonical_event_digest = event_digest;
        idempotency_identity = identity;
        reconstruction_metadata = record {
          evidence_boundary = request.evidence_boundary;
          semantic_at = request.semantic_at;
          clock_source_id = request.clock_source_id;
          clock_source_version = request.clock_source_version;
          configuration_version = request.configuration_version;
          component_version = supported_work_claim_component_version;
          serialization_version = supported_serialization_version;
        };
        recorded_at = recorded_at;
        schema_version = supported_work_claim_schema_version;
      },
      input_content,
      event_content,
    )

  -- The event's constructor, called on its arguments.
  abbrev pub construct :
      WorkClaimEvent × Bytes × Bytes → Result WorkClaimError (WorkClaimEvent × Bytes × Bytes)
  construct (arguments, input_content, event_content) = do
    event ← work_claim_event arguments
    ok (event, input_content, event_content)

  unfoldable pub build_work_claim_event :
      WorkClaimRequest
      → DispatchDecisionRecord
      → RetainedClaimantEvidence
      → RegisteredWorkClaimPolicy
      → WorkClaimDecision
      → ℕ
      → String
      → DateTime
      → Result WorkClaimError (WorkClaimEvent × Bytes × Bytes)
  build_work_claim_event request dispatch claimant policy d lineage_version identity recorded_at =
      event_arguments request dispatch claimant policy d lineage_version identity recorded_at
      >>= construct
