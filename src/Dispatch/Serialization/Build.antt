-- ===== src/Dispatch/Serialization/Build.antt =====
-- The canonical input, the idempotency identity and `build_dispatch_decision` of
-- app/runtime/dispatch_decision/serialization.py. `recorded_at` is the retained time of a reconstruction,
-- or else the clock's time.
pub mod Settled
pub mod Built
use edgeiq.Base.{
  ℕ, String, List, [], ◌∷◌, Result, ok, ◌>>=◌, ◌>>◌, guard, map, map_result, ◌/=◌, text_eq,
}
use edgeiq.Platform.{
  Bytes, DateTime, Interpreter, EvidenceReference, evidence_reference, Value, text, int, enum, time,
  array, items, texts, document, canonical_content, namespaced_digest,
}
use edgeiq.Dispatch.Domain.{
  DispatchDecisionError, invalid, DispatchRequest, stream_key, DispatchDecisionOutcome,
  outcome_text, DispatchDecision, dispatch_decision, StreamKey,
  supported_dispatch_component_version, supported_serialization_version,
  supported_dispatch_schema_version,
}
use edgeiq.Dispatch.Evidence.{RetainedReadinessEvidence, reference_fields}
use edgeiq.Dispatch.Policy.{VerifiedDispatchEvidence, RegisteredDispatchPolicy, evaluate}
use edgeiq.Dispatch.Serialization.{input_digest_namespace, decision_digest_namespace}

abbrev decision_id_namespace : String
decision_id_namespace = "edgeiq.dispatch-decision-id.v1"

abbrev idempotency_namespace : String
idempotency_namespace = "edgeiq.dispatch-decision-idempotency.v1"

abbrev reference_of : String → String → Value
reference_of artifact_id canonical_digest =
    document (("artifact_id", text artifact_id) ∷ ("canonical_digest", text canonical_digest) ∷ [])

abbrev policy_reference_of : RegisteredDispatchPolicy → Value
policy_reference_of policy = document (
    ("artifact_id", text policy.policy_id)
    ∷ ("canonical_digest", text policy.canonical_digest)
    ∷ ("policy_version", text policy.policy_version)
    ∷ [])

abbrev readiness_fields : RetainedReadinessEvidence → Value
readiness_fields r = reference_of r.readiness_id r.canonical_digest

abbrev canonical_input_document : VerifiedDispatchEvidence → RegisteredDispatchPolicy → Value
canonical_input_document e policy = document (
    ("causal_authorization_reference", reference_fields e.lease.causal_authorization_reference)
    ∷ ("clock_source_id", text e.request.clock_source_id)
    ∷ ("clock_source_version", text e.request.clock_source_version)
    ∷ ("component_version", text e.request.component_version)
    ∷ ("configuration_version", text e.request.configuration_version)
    ∷ ("effective_at", time e.request.effective_at)
    ∷ ("evaluation_boundary", text e.request.evaluation_boundary)
    ∷ ("lease_reference", reference_of e.lease.lease_id e.lease.canonical_digest)
    ∷ ("lease_policy_version", text e.lease.lease_policy_version)
    ∷ ("lease_schema_version", text e.lease.schema_version)
    ∷ ("organization_id", text e.request.organization_id)
    ∷ ("plan_reference", reference_of e.plan.plan_id e.plan.canonical_digest)
    ∷ ("plan_schema_version", text e.plan.schema_version)
    ∷ ("planning_rule_version", text e.plan.planning_rule_version)
    ∷ ("policy_reference", policy_reference_of policy)
    ∷ ("readiness_references", array (items (map readiness_fields e.readiness)))
    ∷ ("schema_version", text e.request.schema_version)
    ∷ ("selected_candidate_id", text e.request.selected_candidate_id)
    ∷ ("selection_policy_version", text e.selection.selection_policy_version)
    ∷ ("selection_reference", reference_of e.selection.selection_id e.selection.canonical_digest)
    ∷ ("selection_schema_version", text e.selection.schema_version)
    ∷ ("serialization_version", text e.request.serialization_version)
    ∷ ("work_item_id", text e.request.work_item_id)
    ∷ ("workload_context_id", text e.request.workload_context_id)
    ∷ [])

abbrev stream_texts : StreamKey → List String
stream_texts (organization, workload, plan, item, candidate) =
    organization ∷ workload ∷ plan ∷ item ∷ candidate ∷ []

-- `payload`.
abbrev decision_document :
    VerifiedDispatchEvidence
    → RegisteredDispatchPolicy
    → DispatchDecisionOutcome
    → List String
    → List EvidenceReference
    → String
    → String
    → ℕ
    → Value
decision_document e policy outcome reasons readiness input_digest identity stream_version =
    document (
      ("canonical_input_digest", text input_digest)
      ∷ ("causal_authorization_reference", reference_fields e.lease.causal_authorization_reference)
      ∷ ("dispatch_policy_reference", policy_reference_of policy)
      ∷ ("idempotency_identity", text identity)
      ∷ ("lease_reference", reference_of e.lease.lease_id e.lease.canonical_digest)
      ∷ ("organization_id", text e.request.organization_id)
      ∷ ("outcome", enum (outcome_text outcome))
      ∷ ("plan_reference", reference_of e.plan.plan_id e.plan.canonical_digest)
      ∷ ("readiness_references", array (items (map reference_fields readiness)))
      ∷ ("reason_codes", array (texts reasons))
      ∷ (
        "reconstruction_metadata",
        document (
            ("clock_source_id", text e.request.clock_source_id)
            ∷ ("clock_source_version", text e.request.clock_source_version)
            ∷ ("component_version", text e.request.component_version)
            ∷ ("configuration_version", text e.request.configuration_version)
            ∷ ("effective_at", time e.request.effective_at)
            ∷ ("history_boundary", text e.request.evaluation_boundary)
            ∷ ("serialization_version", text e.request.serialization_version)
            ∷ []),
      )
      ∷ ("schema_version", text e.request.schema_version)
      ∷ ("selected_candidate_id", text e.request.selected_candidate_id)
      ∷ ("selection_reference", reference_of e.selection.selection_id e.selection.canonical_digest)
      ∷ ("stream_version", int stream_version)
      ∷ ("work_item_id", text e.request.work_item_id)
      ∷ ("workload_context_id", text e.request.workload_context_id)
      ∷ [])

module _ ⦃p : Interpreter⦄ where
  unfoldable pub canonical_input_content :
      VerifiedDispatchEvidence → RegisteredDispatchPolicy → Result DispatchDecisionError Bytes
  canonical_input_content e policy = canonical_content invalid (canonical_input_document e policy)

  unfoldable pub dispatch_idempotency_identity :
      DispatchRequest → String → Result DispatchDecisionError String
  dispatch_idempotency_identity request submitted_key = do
    guard (submitted_key /= "") invalid
    content ← canonical_content invalid (
        document (
          ("operation", text "evaluate_dispatch")
          ∷ ("organization_id", text request.organization_id)
          ∷ ("plan_id", text request.plan_id)
          ∷ ("selected_candidate_id", text request.selected_candidate_id)
          ∷ ("submitted_key", text submitted_key)
          ∷ ("work_item_id", text request.work_item_id)
          ∷ ("workload_context_id", text request.workload_context_id)
          ∷ []))
    ok (namespaced_digest idempotency_namespace content)

  -- The arguments of the decision's constructor, with both contents.
  unfoldable pub decision_arguments :
      VerifiedDispatchEvidence
      → RegisteredDispatchPolicy
      → ℕ
      → String
      → DateTime
      → Result DispatchDecisionError (DispatchDecision × Bytes × Bytes)
  decision_arguments e policy stream_version identity recorded_at = do
    input_content ← canonical_input_content e policy
    let input_digest = namespaced_digest input_digest_namespace input_content
    let outcome = (evaluate e).0
    let reasons = (evaluate e).1
    readiness ←
        map_result
          (λ (r : RetainedReadinessEvidence).
            evidence_reference invalid r.readiness_id r.canonical_digest)
          e.readiness
    decision_content ←
        canonical_content invalid (
          decision_document e policy outcome reasons readiness input_digest identity stream_version)
    let decision_digest = namespaced_digest decision_digest_namespace decision_content
    id_content ← canonical_content invalid (
        document (
          ("canonical_decision_digest", text decision_digest)
          ∷ ("stream_key", array (texts (stream_texts (stream_key e.request))))
          ∷ ("stream_version", int stream_version)
          ∷ []))
    plan_reference' ← evidence_reference invalid e.plan.plan_id e.plan.canonical_digest
    selection_reference' ←
        evidence_reference invalid e.selection.selection_id e.selection.canonical_digest
    lease_reference' ← evidence_reference invalid e.lease.lease_id e.lease.canonical_digest
    policy_reference ← evidence_reference invalid policy.policy_id policy.canonical_digest
    ok (
      record {
        dispatch_decision_id = namespaced_digest decision_id_namespace id_content;
        organization_id = e.request.organization_id;
        workload_context_id = e.request.workload_context_id;
        plan_reference = plan_reference';
        work_item_id = e.request.work_item_id;
        selection_reference = selection_reference';
        selected_candidate_id = e.request.selected_candidate_id;
        readiness_references = readiness;
        lease_reference = lease_reference';
        causal_authorization_reference = e.lease.causal_authorization_reference;
        dispatch_policy_reference = policy_reference;
        dispatch_policy_version = policy.policy_version;
        outcome = outcome;
        reason_codes = reasons;
        canonical_input_digest = input_digest;
        canonical_decision_digest = decision_digest;
        stream_version = stream_version;
        idempotency_identity = identity;
        reconstruction_metadata = record {
          history_boundary = e.request.evaluation_boundary;
          effective_at = e.request.effective_at;
          clock_source_id = e.request.clock_source_id;
          clock_source_version = e.request.clock_source_version;
          configuration_version = e.request.configuration_version;
          component_version = supported_dispatch_component_version;
          serialization_version = supported_serialization_version;
        };
        recorded_at = recorded_at;
        schema_version = supported_dispatch_schema_version;
      },
      input_content,
      decision_content,
    )

  -- The decision's constructor, called on its arguments.
  abbrev pub construct :
      DispatchDecision × Bytes × Bytes
      → Result DispatchDecisionError (DispatchDecision × Bytes × Bytes)
  construct (arguments, input_content, decision_content) = do
    decision ← dispatch_decision arguments
    ok (decision, input_content, decision_content)

  unfoldable pub build_dispatch_decision :
      VerifiedDispatchEvidence
      → RegisteredDispatchPolicy
      → ℕ
      → String
      → DateTime
      → Result DispatchDecisionError (DispatchDecision × Bytes × Bytes)
  build_dispatch_decision e policy stream_version identity recorded_at =
      decision_arguments e policy stream_version identity recorded_at >>= construct
