-- ===== src/Selection/Serialization/Documents.antt =====
-- The canonical values of the dataclasses, their fields in the order of the source, without
-- `recorded_at`.
use Prim.Native.String.{◌++◌ as join}
use edgeiq.Base.{String, Bool, Option, none, some, List, [], ◌∷◌, map}
use edgeiq.Platform.{
  Interpreter, Value, Items, Fields, null, bool, int, text, enum, time, array, object, nil, cons,
  end, field, document, items, texts, opt_text, instant,
}
use edgeiq.Selection.Domain.{
  Formats, WorkerReadinessEvidence, WorkerSelectionRequest, Millionths, ScoreComponent,
  WorkerSelectionCandidate, WorkerSelectionExclusion, ReplayMetadata, WorkerSelection, outcome_text,
}

abbrev pub serialization_version : String
serialization_version = "canonical-json.v1"

module _ ⦃f : Formats⦄ where
  unfoldable mutual
    pub canonical_value : Value → Value
    canonical_value null = null
    canonical_value (bool b) = bool b
    canonical_value (int n) = int n
    canonical_value (text s) = text s
    canonical_value (enum s) = text s
    canonical_value (time t) = text (f.isoformat_microseconds (instant t))
    canonical_value (array vs) = array (canonical_items vs)
    canonical_value (object fs) = object (canonical_fields fs)

    pub canonical_items : Items → Items
    canonical_items nil = nil
    canonical_items (cons v vs) = cons (canonical_value v) (canonical_items vs)

    pub canonical_fields : Fields → Fields
    canonical_fields end = end
    canonical_fields (field k v fs) = field k (canonical_value v) (canonical_fields fs)

  unfoldable pub canonical_hash : ⦃p : Interpreter⦄ → String → Value → String
  unfolding canonical_value
  canonical_hash ⦃p⦄ namespace value =
      p.sha256 (p.encode (join namespace (join "\n" (p.dumps (canonical_value value)))))

  abbrev places : Millionths → Value
  places m = text (f.six_places m.negative m.amount)

  abbrev component_document : ScoreComponent → Value
  component_document c = document (
      ("component_code", text c.component_code)
      ∷ ("raw_value", opt_text c.raw_value)
      ∷ ("normalized_value", places c.normalized_value)
      ∷ ("weight", int c.weight)
      ∷ ("weighted_score", places c.weighted_score)
      ∷ ("reason_code", text c.reason_code)
      ∷ ("evidence_references", array (texts c.evidence_references))
      ∷ [])

  abbrev pub candidate_document : WorkerSelectionCandidate → Value
  candidate_document c = document (
      ("worker_id", text c.worker_id)
      ∷ ("readiness_reference", text c.readiness_reference)
      ∷ ("score", text (f.six_places Bool.false c.score))
      ∷ ("rank", int c.rank)
      ∷ ("score_components", array (items (map component_document c.score_components)))
      ∷ ("explanation", text c.explanation)
      ∷ ("reason_codes", array (texts c.reason_codes))
      ∷ ("evidence_references", array (texts c.evidence_references))
      ∷ ("readiness_evaluated_at", time c.readiness_evaluated_at)
      ∷ ("canonical_hash", text c.canonical_hash)
      ∷ ("evaluation_timestamp", time c.evaluation_timestamp)
      ∷ [])

abbrev pub exclusion_document : WorkerSelectionExclusion → Value
exclusion_document x = document (
    ("worker_id", text x.worker_id)
    ∷ ("readiness_reference", text x.readiness_reference)
    ∷ ("reason_codes", array (texts x.reason_codes))
    ∷ ("evidence_references", array (texts x.evidence_references))
    ∷ ("canonical_hash", text x.canonical_hash)
    ∷ [])

abbrev opt_bool : Option Bool → Value
opt_bool none = null
opt_bool (some b) = bool b

abbrev mapping : List (String × String) → List (String × Value)
mapping [] = []
mapping ((k, v) ∷ rest) = (k, text v) ∷ mapping rest

abbrev readiness_document : WorkerReadinessEvidence → Value
readiness_document e = document (
    ("worker_id", text e.worker_id)
    ∷ ("reference", text e.reference)
    ∷ ("canonical_hash", text e.canonical_hash)
    ∷ ("organization_id", text e.organization_id)
    ∷ ("workload_context_id", text e.workload_context_id)
    ∷ ("evaluated_at", time e.evaluated_at)
    ∷ ("expires_at", time e.expires_at)
    ∷ ("ready", bool e.ready)
    ∷ ("capabilities", array (texts e.capabilities))
    ∷ ("hard_policy_pass", opt_bool e.hard_policy_pass)
    ∷ ("evidence_consistent", bool e.evidence_consistent)
    ∷ ("scores", document (mapping e.scores))
    ∷ ("evidence_references", array (texts e.evidence_references))
    ∷ ("schema_version", text e.schema_version)
    ∷ [])

abbrev pub request_document : WorkerSelectionRequest → Value
request_document r = document (
    ("organization_id", text r.organization_id)
    ∷ ("workload_context_id", text r.workload_context_id)
    ∷ ("execution_plan_reference", text r.execution_plan_reference)
    ∷ ("workload_requirements_reference", text r.workload_requirements_reference)
    ∷ ("policy_constraints_reference", text r.policy_constraints_reference)
    ∷ ("required_capabilities", array (texts r.required_capabilities))
    ∷ ("readiness", array (items (map readiness_document r.readiness)))
    ∷ ("evaluation_boundary", time r.evaluation_boundary)
    ∷ ("history_boundary", text r.history_boundary)
    ∷ ("preference_evidence_references", array (texts r.preference_evidence_references))
    ∷ ("scoring_policy_version", text r.scoring_policy_version)
    ∷ ("evaluator_version", text r.evaluator_version)
    ∷ ("schema_version", text r.schema_version)
    ∷ [])

abbrev metadata_document : ReplayMetadata → Value
metadata_document m = document (
    ("history_boundary", text m.history_boundary)
    ∷ ("input_artifact_hashes", array (texts m.input_artifact_hashes))
    ∷ ("scoring_policy_hash", text m.scoring_policy_hash)
    ∷ ("evaluator_version", text m.evaluator_version)
    ∷ ("canonical_configuration_hash", text m.canonical_configuration_hash)
    ∷ ("candidate_ordering_rule_version", text m.candidate_ordering_rule_version)
    ∷ ("serialization_version", text m.serialization_version)
    ∷ ("replay_input_hash", text m.replay_input_hash)
    ∷ ("replay_output_hash", text m.replay_output_hash)
    ∷ [])

abbrev pub selection_document : ⦃f : Formats⦄ → WorkerSelection → Value
selection_document s = document (
    ("selection_id", text s.selection_id)
    ∷ ("organization_id", text s.organization_id)
    ∷ ("workload_context_id", text s.workload_context_id)
    ∷ ("version", int s.version)
    ∷ ("outcome", enum (outcome_text s.outcome))
    ∷ ("candidates", array (items (map candidate_document s.candidates)))
    ∷ ("excluded_workers", array (items (map exclusion_document s.excluded_workers)))
    ∷ ("input_evidence_references", array (texts s.input_evidence_references))
    ∷ ("scoring_policy_version", text s.scoring_policy_version)
    ∷ ("evaluator_version", text s.evaluator_version)
    ∷ ("schema_version", text s.schema_version)
    ∷ ("replay_metadata", metadata_document s.replay_metadata)
    ∷ ("canonical_hash", text s.canonical_hash)
    ∷ ("evaluated_at", time s.evaluated_at)
    ∷ [])
