-- ===== src/Claim/Serialization.antt =====
-- app/runtime/work_claim/serialization.py: canonical documents, identities and the built event.
pub mod Build
use edgeiq.Base.{
  ℕ, String, Option, none, some, List, [], ◌∷◌, Result, ok, ◌>>=◌, ◌>>◌, guard, ◌==◌, text_eq,
}
use edgeiq.Platform.{
  Bytes, DateTime, Interpreter, Value, text, int, enum, time, array, texts, items, opt_text,
  opt_int, opt_time, document, canonical_content, namespaced_digest, evidence_reference,
  add_seconds,
}
use edgeiq.Dispatch.Domain.{DispatchDecisionRecord}
use edgeiq.Dispatch.Domain
use edgeiq.Claim.Domain.{
  WorkClaimError, invalid, digest_mismatch, overflow, WorkClaimRequest, WorkClaimEvent, LineageKey,
  lineage_key, operation_text, event_type_text, outcome_text, work_claim_event,
  supported_work_claim_schema_version, supported_work_claim_component_version,
  supported_serialization_version,
}
use edgeiq.Claim.Evidence.{RetainedClaimantEvidence}
use edgeiq.Claim.Policy.{RegisteredWorkClaimPolicy, WorkClaimDecision}

abbrev pub lineage_id_namespace : String
lineage_id_namespace = "edgeiq.work-claim-lineage-id.v1"

abbrev pub input_digest_namespace : String
input_digest_namespace = "edgeiq.work-claim-input.v1"

abbrev pub event_digest_namespace : String
event_digest_namespace = "edgeiq.work-claim-event.v1"

abbrev pub event_id_namespace : String
event_id_namespace = "edgeiq.work-claim-event-id.v1"

abbrev pub idempotency_namespace : String
idempotency_namespace = "edgeiq.work-claim-idempotency.v1"

abbrev key_value : LineageKey → Value
key_value (organization, workload, plan, item) =
    array (items (text organization ∷ text workload ∷ text plan ∷ text item ∷ []))

unfoldable pub input_document :
    WorkClaimRequest
    → DispatchDecisionRecord
    → RetainedClaimantEvidence
    → RegisteredWorkClaimPolicy
    → Value
input_document request dispatch claimant policy =
    let d = dispatch.decision in
    document (
      (
        "claim_policy",
        document (
            ("canonical_digest", text policy.canonical_digest)
            ∷ ("claim_ttl_seconds", int policy.claim_ttl_seconds)
            ∷ ("policy_id", text policy.policy_id)
            ∷ ("policy_version", text policy.policy_version)
            ∷ []),
      )
      ∷ (
        "claimant_evidence",
        document (
            ("authentication_boundary", text claimant.authentication_boundary)
            ∷ ("canonical_digest", text claimant.canonical_digest)
            ∷ ("claimant_id", text claimant.claimant_id)
            ∷ ("effective_at", time claimant.effective_at)
            ∷ ("evidence_id", text claimant.evidence_id)
            ∷ ("expires_at", time claimant.expires_at)
            ∷ ("producer_version", text claimant.producer_version)
            ∷ ("schema_version", text claimant.schema_version)
            ∷ ("selected_candidate_id", text claimant.selected_candidate_id)
            ∷ []),
      )
      ∷ ("clock_source_id", text request.clock_source_id)
      ∷ ("clock_source_version", text request.clock_source_version)
      ∷ ("component_version", text request.component_version)
      ∷ ("configuration_version", text request.configuration_version)
      ∷ (
        "dispatch_evidence",
        document (
            ("canonical_decision_digest", text d.canonical_decision_digest)
            ∷ ("canonical_input_digest", text d.canonical_input_digest)
            ∷ ("component_version", text dispatch.request.component_version)
            ∷ ("dispatch_decision_id", text d.dispatch_decision_id)
            ∷ ("dispatch_policy_version", text d.dispatch_policy_version)
            ∷ ("history_boundary", text d.reconstruction_metadata.history_boundary)
            ∷ ("outcome", enum (Domain.outcome_text d.outcome))
            ∷ ("schema_version", text d.schema_version)
            ∷ ("serialization_version", text dispatch.request.serialization_version)
            ∷ ("stream_version", int d.stream_version)
            ∷ []),
      )
      ∷ ("evidence_boundary", text request.evidence_boundary)
      ∷ ("expected_lineage_version", int request.expected_lineage_version)
      ∷ ("operation", enum (operation_text request.operation))
      ∷ ("organization_id", text request.organization_id)
      ∷ ("plan_id", text request.plan_id)
      ∷ ("release_reason", opt_text request.release_reason)
      ∷ ("schema_version", text request.schema_version)
      ∷ ("selected_candidate_id", text request.selected_candidate_id)
      ∷ ("semantic_at", time request.semantic_at)
      ∷ ("serialization_version", text request.serialization_version)
      ∷ ("work_item_id", text request.work_item_id)
      ∷ ("workload_context_id", text request.workload_context_id)
      ∷ [])

-- The payload of `build_work_claim_event`, which the event digest covers.
unfoldable pub event_document :
    WorkClaimRequest
    → DispatchDecisionRecord
    → RetainedClaimantEvidence
    → RegisteredWorkClaimPolicy
    → WorkClaimDecision
    → (lineage_id input_digest identity : String) → Option DateTime
    → ℕ
    → Value
event_document request dispatch claimant policy d lineage_id input_digest identity expires_at
      version =
    document (
      ("canonical_input_digest", text input_digest)
      ∷ ("causal_event_id", opt_text d.causal_event_id)
      ∷ (
        "claim_policy_reference",
        document (
            ("artifact_id", text policy.policy_id)
            ∷ ("canonical_digest", text policy.canonical_digest)
            ∷ ("policy_version", text policy.policy_version)
            ∷ []),
      )
      ∷ (
        "claimant_reference",
        document (
            ("artifact_id", text claimant.evidence_id)
            ∷ ("canonical_digest", text claimant.canonical_digest)
            ∷ []),
      )
      ∷ ("claimant_id", text claimant.claimant_id)
      ∷ (
        "dispatch_reference",
        document (
            ("artifact_id", text dispatch.decision.dispatch_decision_id)
            ∷ ("canonical_digest", text dispatch.decision.canonical_decision_digest)
            ∷ []),
      )
      ∷ ("event_type", enum (event_type_text d.event_type))
      ∷ ("expires_at", opt_time expires_at)
      ∷ ("fence", opt_int d.fence)
      ∷ ("generation", int d.generation)
      ∷ ("idempotency_identity", text identity)
      ∷ ("lineage_id", text lineage_id)
      ∷ ("lineage_version", int version)
      ∷ ("organization_id", text request.organization_id)
      ∷ ("outcome", enum (outcome_text d.outcome))
      ∷ ("plan_id", text request.plan_id)
      ∷ ("reason_codes", array (texts d.reason_codes))
      ∷ (
        "reconstruction_metadata",
        document (
            ("clock_source_id", text request.clock_source_id)
            ∷ ("clock_source_version", text request.clock_source_version)
            ∷ ("component_version", text request.component_version)
            ∷ ("configuration_version", text request.configuration_version)
            ∷ ("evidence_boundary", text request.evidence_boundary)
            ∷ ("semantic_at", time request.semantic_at)
            ∷ ("serialization_version", text request.serialization_version)
            ∷ []),
      )
      ∷ ("release_reason", opt_text request.release_reason)
      ∷ ("schema_version", text request.schema_version)
      ∷ ("selected_candidate_id", text request.selected_candidate_id)
      ∷ ("semantic_at", time request.semantic_at)
      ∷ ("work_item_id", text request.work_item_id)
      ∷ ("workload_context_id", text request.workload_context_id)
      ∷ [])

module _ ⦃p : Interpreter⦄ where
  unfoldable pub lineage_identity : LineageKey → Result WorkClaimError String
  lineage_identity key = do
    content ← canonical_content invalid (document (("lineage_key", key_value key) ∷ []))
    ok (namespaced_digest lineage_id_namespace content)

  unfoldable pub work_claim_idempotency_identity : WorkClaimRequest → Result WorkClaimError String
  work_claim_idempotency_identity request = do
    content ← canonical_content invalid (
        document (
          ("operation", enum (operation_text request.operation))
          ∷ ("organization_id", text request.organization_id)
          ∷ ("plan_id", text request.plan_id)
          ∷ ("submitted_key", text request.idempotency_key)
          ∷ ("work_item_id", text request.work_item_id)
          ∷ ("workload_context_id", text request.workload_context_id)
          ∷ []))
    ok (namespaced_digest idempotency_namespace content)

  unfoldable pub canonical_input_content :
      WorkClaimRequest
      → DispatchDecisionRecord
      → RetainedClaimantEvidence
      → RegisteredWorkClaimPolicy
      → Result WorkClaimError Bytes
  canonical_input_content request dispatch claimant policy =
      canonical_content invalid (input_document request dispatch claimant policy)

  unfoldable pub verify_recorded_content :
      WorkClaimEvent → Bytes → Bytes → Result WorkClaimError (Unit {0})
  verify_recorded_content event input_content event_content = do
    guard (namespaced_digest input_digest_namespace input_content == event.canonical_input_digest)
        digest_mismatch
    guard (namespaced_digest event_digest_namespace event_content == event.canonical_event_digest)
        digest_mismatch
