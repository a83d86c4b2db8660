-- ===== src/Selection/Evaluator.antt =====
-- app/runtime/worker_selection/evaluator.py: `WorkerSelectionEvaluator.evaluate`.
mod Screening
mod Outcome
pub mod Eligibility
pub mod Ordering
pub mod Partition
pub mod Scores
pub mod Verdict
pub mod Version
unfoldable pub use Screening.*
unfoldable pub use Outcome.*
use Prim.Native.String.{◌++◌ as join}
use edgeiq.Base.{
  ℕ, suc, ◌+◌, String, Bool, true, false, Option, none, List, [], ◌∷◌, ◌++◌, Result, ok, ◌>>=◌,
  ◌>>◌, ltb, ◌==◌, text_eq, map, if◌then◌else◌,
}
use edgeiq.Base.Sorting.{sorted_by}
use edgeiq.Platform.{Interpreter, before, text_le, text, enum, time, array, items, texts, document}
use edgeiq.Selection.Domain.{
  Formats, SelectionError, WorkerReadinessEvidence, WorkerSelectionRequest, ScoreComponent,
  WorkerSelectionCandidate, WorkerSelectionExclusion, WorkerSelection, outcome_text,
}
use edgeiq.Selection.Policy.{ScoringPolicy, policy_for, policy_hash}
use edgeiq.Selection.Serialization.{
  canonical_hash, candidate_document, exclusion_document, request_document, selection_document,
  serialization_version,
}

abbrev ordering_version : String
ordering_version = "score-desc-readiness-asc-worker-uuid-asc.v1"

abbrev configuration_version : String
configuration_version = "worker-selection.config.v1"

-- The sort key `(-total, evaluated_at, worker_id)`.
unfoldable pub ranks_before : Scored → Scored → Bool
ranks_before a b =
    if ltb b.total a.total
    then true
    else if ltb a.total b.total
    then false
    else if before a.evidence.evaluated_at b.evidence.evaluated_at
    then true
    else if before b.evidence.evaluated_at a.evidence.evaluated_at
    then false
    else text_le a.evidence.worker_id b.evidence.worker_id

module _ ⦃f : Formats⦄ where
  abbrev details : List ScoreComponent → String
  details [] = ""
  details (c ∷ []) =
      join c.component_code
        (join "=" (f.six_places c.weighted_score.negative c.weighted_score.amount))
  details (c ∷ d ∷ cs) =
      join
        (join c.component_code
          (join "=" (f.six_places c.weighted_score.negative c.weighted_score.amount)))
        (join ", " (details (d ∷ cs)))

  unfoldable pub explanation : ℕ → List ScoreComponent → String
  explanation total components =
      join "Final score "
        (join (f.six_places false total) (join ": " (join (details components) ".")))

module _ ⦃p : Interpreter⦄ ⦃f : Formats⦄ (r : WorkerSelectionRequest) where
  unfoldable pub selection_id_of : String
  selection_id_of = canonical_hash "worker-selection-id" (
      document (
        ("schemaVersion", text r.schema_version)
        ∷ ("organizationId", text r.organization_id)
        ∷ ("workloadContextId", text r.workload_context_id)
        ∷ ("executionPlanReference", text r.execution_plan_reference)
        ∷ (
          "readinessReferences",
          array (texts (map (λ (e : WorkerReadinessEvidence). e.reference) r.readiness)),
        )
        ∷ ("preferenceEvidenceReferences", array (texts r.preference_evidence_references))
        ∷ ("policyConstraintsReference", text r.policy_constraints_reference)
        ∷ ("scoringPolicyVersion", text r.scoring_policy_version)
        ∷ ("evaluatorVersion", text r.evaluator_version)
        ∷ ("evaluationBoundary", time r.evaluation_boundary)
        ∷ []))

  unfoldable pub candidate : ℕ → Scored → WorkerSelectionCandidate
  unfolding selection_id_of explanation
  candidate rank s =
      let bare : WorkerSelectionCandidate = record {
        worker_id = s.evidence.worker_id;
        readiness_reference = s.evidence.reference;
        score = s.total;
        rank = rank;
        score_components = s.components;
        explanation = explanation s.total s.components;
        reason_codes = map (λ (c : ScoreComponent). c.reason_code) s.components;
        evidence_references = s.evidence.evidence_references;
        readiness_evaluated_at = s.evidence.evaluated_at;
        canonical_hash = "";
        evaluation_timestamp = r.evaluation_boundary;
      } in
      record bare {
        canonical_hash = canonical_hash "worker-selection-candidate" (
            document (
              ("selectionId", text selection_id_of) ∷ ("candidate", candidate_document bare) ∷ []));
      }

  -- `enumerate(provisional, start=1)`.
  unfoldable pub ranked : ℕ → List Scored → List WorkerSelectionCandidate
  ranked rank [] = []
  ranked rank (s ∷ ss) = candidate rank s ∷ ranked (rank + 1) ss

  -- The selection of a screened request.
  unfoldable pub selection_of : ℕ → ScoringPolicy → Screened → WorkerSelection
  unfolding ranked
  selection_of version policy s =
      let candidates = ranked 1 (sorted_by ranks_before s.provisional) in
      let outcome = selection_outcome candidates (categories s.exclusions) in
      let bare : WorkerSelection = record {
        selection_id = selection_id_of;
        organization_id = r.organization_id;
        workload_context_id = r.workload_context_id;
        version = version;
        outcome = outcome;
        candidates = candidates;
        excluded_workers = s.exclusions;
        input_evidence_references = sorted_by text_le (
            r.execution_plan_reference
            ∷ r.workload_requirements_reference
            ∷ r.policy_constraints_reference
            ∷ (map (λ (e : WorkerReadinessEvidence). e.reference) r.readiness
                ++ r.preference_evidence_references));
        scoring_policy_version = r.scoring_policy_version;
        evaluator_version = r.evaluator_version;
        schema_version = r.schema_version;
        replay_metadata = record {
          history_boundary = r.history_boundary;
          input_artifact_hashes =
              map (λ (e : WorkerReadinessEvidence). e.canonical_hash) r.readiness;
          scoring_policy_hash = policy_hash policy;
          evaluator_version = r.evaluator_version;
          canonical_configuration_hash =
              canonical_hash "worker-selection-configuration" (text configuration_version);
          candidate_ordering_rule_version = ordering_version;
          serialization_version = serialization_version;
          replay_input_hash = canonical_hash "worker-selection-replay-input" (request_document r);
          replay_output_hash = canonical_hash "worker-selection-replay-output" (
              document (
                ("outcome", enum (outcome_text outcome))
                ∷ ("candidates", array (items (map candidate_document candidates)))
                ∷ ("excludedWorkers", array (items (map exclusion_document s.exclusions)))
                ∷ []));
        };
        canonical_hash = "";
        evaluated_at = r.evaluation_boundary;
        recorded_at = none;
      } in
      record bare { canonical_hash = canonical_hash "worker-selection" (selection_document bare) }

  unfoldable pub evaluate : ℕ → Result SelectionError WorkerSelection
  evaluate version = do
    validate_request r
    policy ← policy_for r.scoring_policy_version
    s ← screen r policy r.readiness
    ok (selection_of version policy s)
