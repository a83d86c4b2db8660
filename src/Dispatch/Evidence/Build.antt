-- ===== src/Dispatch/Evidence/Build.antt =====
-- The builders: content, digest and the checked fields.
use edgeiq.Base.{
  String, not, ◌&&◌, List, [], ◌∷◌, Result, ok, ◌>>=◌, ◌>>◌, guard, text_eq, map, map_result,
}
use edgeiq.Base.Sorting.{sorted_by}
use edgeiq.Platform.{
  Interpreter, EvidenceReference, Value, required_text, utc_time, before, bool, text, time, array,
  items, texts, document, canonical_content, namespaced_digest, text_le, unique_texts,
}
use edgeiq.Dispatch.Domain.{DispatchDecisionError, invalid}
use edgeiq.Dispatch.Evidence.Types.{
  RetainedPlanEvidence, RetainedReadinessEvidence, RetainedSelectionCandidate,
  RetainedSelectionEvidence, RetainedLeaseEvidence, candidate_le, nonempty,
}

abbrev plan_evidence_namespace : String
plan_evidence_namespace = "edgeiq.dispatch-plan-evidence.v1"

abbrev selection_evidence_namespace : String
selection_evidence_namespace = "edgeiq.dispatch-selection-evidence.v1"

abbrev readiness_evidence_namespace : String
readiness_evidence_namespace = "edgeiq.dispatch-readiness-evidence.v1"

abbrev lease_evidence_namespace : String
lease_evidence_namespace = "edgeiq.dispatch-lease-evidence.v1"

abbrev pub reference_fields : EvidenceReference → Value
reference_fields r =
    document
      (("artifact_id", text r.artifact_id) ∷ ("canonical_digest", text r.canonical_digest) ∷ [])

abbrev candidate_fields : RetainedSelectionCandidate → Value
candidate_fields c = document (
    ("candidate_id", text c.candidate_id)
    ∷ ("readiness_references", array (items (map reference_fields c.readiness_references)))
    ∷ [])

module _ ⦃p : Interpreter⦄ where
  abbrev sorted_items : List String → Result DispatchDecisionError (List String)
  sorted_items ids = do
    checked ← map_result (required_text invalid) ids
    let ordered = sorted_by text_le checked
    guard (nonempty ordered && unique_texts ordered) invalid
    ok ordered

  -- The keyword arguments are the fields of a record, whose digest and content are not read.
  unfoldable pub build_plan_evidence :
      RetainedPlanEvidence → Result DispatchDecisionError RetainedPlanEvidence
  build_plan_evidence a = do
    checked ← sorted_items a.work_item_ids
    organization_id' ← required_text invalid a.organization_id
    plan_id' ← required_text invalid a.plan_id
    workload_context_id' ← required_text invalid a.workload_context_id
    content ← canonical_content invalid (
        document (
          ("organization_id", text organization_id')
          ∷ ("plan_id", text plan_id')
          ∷ ("planning_rule_version", text a.planning_rule_version)
          ∷ ("schema_version", text a.schema_version)
          ∷ ("work_item_ids", array (texts checked))
          ∷ ("workload_context_id", text workload_context_id')
          ∷ []))
    ok (record a {
      plan_id = plan_id';
      organization_id = organization_id';
      workload_context_id = workload_context_id';
      work_item_ids = checked;
      canonical_digest = namespaced_digest plan_evidence_namespace content;
      canonical_content = content;
    })

  unfoldable pub build_readiness_evidence :
      RetainedReadinessEvidence → Result DispatchDecisionError RetainedReadinessEvidence
  build_readiness_evidence a = do
    evaluated ← utc_time invalid a.evaluated_at
    expires ← utc_time invalid a.expires_at
    guard (not (before expires evaluated)) invalid
    organization_id' ← required_text invalid a.organization_id
    readiness_id' ← required_text invalid a.readiness_id
    workload_context_id' ← required_text invalid a.workload_context_id
    content ← canonical_content invalid (
        document (
          ("evaluated_at", time evaluated)
          ∷ ("expires_at", time expires)
          ∷ ("organization_id", text organization_id')
          ∷ ("readiness_id", text readiness_id')
          ∷ ("schema_version", text a.schema_version)
          ∷ ("superseded", bool a.superseded)
          ∷ ("workload_context_id", text workload_context_id')
          ∷ []))
    ok (record a {
      readiness_id = readiness_id';
      organization_id = organization_id';
      workload_context_id = workload_context_id';
      evaluated_at = evaluated;
      expires_at = expires;
      canonical_digest = namespaced_digest readiness_evidence_namespace content;
      canonical_content = content;
    })

  unfoldable pub build_selection_evidence :
      RetainedSelectionEvidence → Result DispatchDecisionError RetainedSelectionEvidence
  build_selection_evidence a = do
    let ordered = sorted_by candidate_le a.candidates
    guard
        (nonempty ordered
          && unique_texts (map (λ (c : RetainedSelectionCandidate). c.candidate_id) ordered))
        invalid
    evaluation_boundary' ← required_text invalid a.evaluation_boundary
    organization_id' ← required_text invalid a.organization_id
    selection_id' ← required_text invalid a.selection_id
    workload_context_id' ← required_text invalid a.workload_context_id
    content ← canonical_content invalid (
        document (
          ("candidates", array (items (map candidate_fields ordered)))
          ∷ ("evaluation_boundary", text evaluation_boundary')
          ∷ ("organization_id", text organization_id')
          ∷ ("plan_reference", reference_fields a.plan_reference)
          ∷ ("schema_version", text a.schema_version)
          ∷ ("selection_id", text selection_id')
          ∷ ("selection_policy_version", text a.selection_policy_version)
          ∷ ("workload_context_id", text workload_context_id')
          ∷ []))
    ok (record a {
      selection_id = selection_id';
      organization_id = organization_id';
      workload_context_id = workload_context_id';
      candidates = ordered;
      evaluation_boundary = evaluation_boundary';
      canonical_digest = namespaced_digest selection_evidence_namespace content;
      canonical_content = content;
    })

  unfoldable pub build_lease_evidence :
      RetainedLeaseEvidence → Result DispatchDecisionError RetainedLeaseEvidence
  build_lease_evidence a = do
    checked ← sorted_items a.work_item_ids
    effective ← utc_time invalid a.effective_at
    expires ← utc_time invalid a.expires_at
    guard (not (before expires effective)) invalid
    lease_id' ← required_text invalid a.lease_id
    organization_id' ← required_text invalid a.organization_id
    plan_id' ← required_text invalid a.plan_id
    workload_context_id' ← required_text invalid a.workload_context_id
    content ← canonical_content invalid (
        document (
          ("bounded_permission", bool a.bounded_permission)
          ∷ ("causal_authorization_reference", reference_fields a.causal_authorization_reference)
          ∷ ("effective_at", time effective)
          ∷ ("expires_at", time expires)
          ∷ ("lease_id", text lease_id')
          ∷ ("lease_policy_version", text a.lease_policy_version)
          ∷ ("organization_id", text organization_id')
          ∷ ("plan_id", text plan_id')
          ∷ ("revoked", bool a.revoked)
          ∷ ("schema_version", text a.schema_version)
          ∷ ("work_item_ids", array (texts checked))
          ∷ ("workload_context_id", text workload_context_id')
          ∷ []))
    ok (record a {
      lease_id = lease_id';
      organization_id = organization_id';
      workload_context_id = workload_context_id';
      plan_id = plan_id';
      work_item_ids = checked;
      effective_at = effective;
      expires_at = expires;
      canonical_digest = namespaced_digest lease_evidence_namespace content;
      canonical_content = content;
    })
