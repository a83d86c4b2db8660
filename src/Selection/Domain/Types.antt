-- ===== src/Selection/Domain/Types.antt =====
-- Errors, enums and dataclasses of app/runtime/worker_selection/domain.py, and what the package takes
-- from Python's standard library besides `Interpreter`.
use edgeiq.Base.{ℕ, String, Bool, Option, List, Eq}
use edgeiq.Platform.{DateTime}

-- A `Decimal`: a finite one is its sign, its coefficient and its number of places; `special` is an
-- infinity or a NaN.
pub data Decimal : Type 0 where
  finite : Bool → ℕ → ℕ → Decimal
  special : Decimal

-- `decimal` is `Decimal(·)`, `none` where it raises; `six_places` is the text of a number of millionths
-- with its sign, as `format(·, ".6f")` writes it; `uuid` is `str(UUID(·))`, `none` where it raises;
-- `isoformat_microseconds` is the ISO text of an instant with six places of seconds and the suffix `Z`.
pub record Formats : Type 0 where
  pub decimal : String → Option Decimal
  pub six_places : Bool → ℕ → String
  pub uuid : String → Option String
  pub isoformat_microseconds : ℕ → String

pub data SelectionError : Type 0 where
  invalid version_unsupported idempotency_conflict version_conflict : SelectionError
  replay_failed replay_diverged : SelectionError

pub data SelectionOutcome : Type 0 where
  candidate_found no_eligible_workers policy_filtered evidence_unavailable indeterminate :
      SelectionOutcome

abbrev pub outcome_text : SelectionOutcome → String
outcome_text candidate_found = "CandidateFound"
outcome_text no_eligible_workers = "NoEligibleWorkers"
outcome_text policy_filtered = "PolicyFiltered"
outcome_text evidence_unavailable = "EvidenceUnavailable"
outcome_text indeterminate = "Indeterminate"

unfoldable pub SelectionOutcome_discrete : Discrete SelectionOutcome
SelectionOutcome_discrete = hlevel

instance abbrev pub outcome_eq : Eq SelectionOutcome
outcome_eq = record { dec = SelectionOutcome_discrete }

-- `scores` are the items of the mapping.
pub record WorkerReadinessEvidence : Type 0 where
  pub worker_id : String
  pub reference : String
  pub canonical_hash : String
  pub organization_id : String
  pub workload_context_id : String
  pub evaluated_at : DateTime
  pub expires_at : DateTime
  pub ready : Bool
  pub capabilities : List String
  pub hard_policy_pass : Option Bool
  pub evidence_consistent : Bool
  pub scores : List (String × String)
  pub evidence_references : List String
  pub schema_version : String

pub record WorkerSelectionRequest : Type 0 where
  pub organization_id : String
  pub workload_context_id : String
  pub execution_plan_reference : String
  pub workload_requirements_reference : String
  pub policy_constraints_reference : String
  pub required_capabilities : List String
  pub readiness : List WorkerReadinessEvidence
  pub evaluation_boundary : DateTime
  pub history_boundary : String
  pub preference_evidence_references : List String
  pub scoring_policy_version : String
  pub evaluator_version : String
  pub schema_version : String

-- A number of millionths with the sign that a `Decimal` keeps, also at zero. The source stores such a
-- number as its text with six places.
pub record Millionths : Type 0 where
  pub negative : Bool
  pub amount : ℕ

pub record ScoreComponent : Type 0 where
  pub component_code : String
  pub raw_value : Option String
  pub normalized_value : Millionths
  pub weight : ℕ
  pub weighted_score : Millionths
  pub reason_code : String
  pub evidence_references : List String

-- `score` is in millionths.
pub record WorkerSelectionCandidate : Type 0 where
  pub worker_id : String
  pub readiness_reference : String
  pub score : ℕ
  pub rank : ℕ
  pub score_components : List ScoreComponent
  pub explanation : String
  pub reason_codes : List String
  pub evidence_references : List String
  pub readiness_evaluated_at : DateTime
  pub canonical_hash : String
  pub evaluation_timestamp : DateTime

pub record WorkerSelectionExclusion : Type 0 where
  pub worker_id : String
  pub readiness_reference : String
  pub reason_codes : List String
  pub evidence_references : List String
  pub canonical_hash : String

pub record ReplayMetadata : Type 0 where
  pub history_boundary : String
  pub input_artifact_hashes : List String
  pub scoring_policy_hash : String
  pub evaluator_version : String
  pub canonical_configuration_hash : String
  pub candidate_ordering_rule_version : String
  pub serialization_version : String
  pub replay_input_hash : String
  pub replay_output_hash : String

pub record WorkerSelection : Type 0 where
  pub selection_id : String
  pub organization_id : String
  pub workload_context_id : String
  pub version : ℕ
  pub outcome : SelectionOutcome
  pub candidates : List WorkerSelectionCandidate
  pub excluded_workers : List WorkerSelectionExclusion
  pub input_evidence_references : List String
  pub scoring_policy_version : String
  pub evaluator_version : String
  pub schema_version : String
  pub replay_metadata : ReplayMetadata
  pub canonical_hash : String
  pub evaluated_at : DateTime
  pub recorded_at : Option DateTime

-- ports.py.
pub record WorkerSelectionHistoryRecord : Type 0 where
  pub request : WorkerSelectionRequest
  pub selection : WorkerSelection
  pub idempotency_key : String
  pub canonical_input_hash : String
