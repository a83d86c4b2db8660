-- ===== src/Selection/Scenario.antt =====
-- A small world for runs of the model: three workers that report on one workload.
use edgeiq.Base.{
  ℕ, ◌*◌, String, ◌≡◌, refl, Bool, true, false, Option, none, some, List, [], ◌∷◌, ◌==◌, text_eq,
  is_ok, ok, err, map, Result, if◌then◌else◌, String_discrete, put, empty_dict,
}
use native.Mathlib.Decide.{ℕ_discrete}
use edgeiq.Base.Sorting.{sorted_by, insert_by}
use edgeiq.Platform.{aware, DateTime, text_le, codes_le, unique_texts}
use edgeiq.Platform.Plain.{plain, hex, fold_bytes, dump}
use edgeiq.Selection.Domain.{
  Formats, Decimal, finite, SelectionError, WorkerReadinessEvidence, WorkerSelectionRequest,
  WorkerSelectionCandidate, WorkerSelection,
}
use edgeiq.Selection.Serialization.{canonical_value, canonical_hash}
use edgeiq.Selection.Policy.{
  policy_for, round_half_even, quantized, score_of, normalized, score_component, score_components,
}
use edgeiq.Selection.Evaluator.{
  validate_request, covered, exclusion_reasons, exclusion, screen_one, screen, selection_outcome,
  ranks_before, explanation, selection_id_of, candidate, ranked, selection_of,
}
use edgeiq.Selection.Evaluator
use edgeiq.Selection.History.{StreamKey_discrete, OperationKey_discrete, accepted, publish, append}
use edgeiq.Selection.Service.{input_hash, evaluate}

-- The decimals that the scenario uses.
unfoldable pub decimal_of : String → Option Decimal
decimal_of s =
    if s == "1"
    then some (finite false 1 0)
    else if s == "0.5"
    then some (finite false 5 1)
    else if s == "0.25"
    then some (finite false 25 2)
    else none

instance abbrev pub formats : Formats
formats = record {
  decimal = decimal_of;
  six_places = λ negative n. hex 9 n;
  uuid = λ s. some s;
  isoformat_microseconds = λ t. hex 9 t;
}

abbrev pub moment : ℕ → DateTime
moment seconds = aware (seconds * 1000000)

abbrev pub worker : String → Bool → Option Bool → List (String × String) → WorkerReadinessEvidence
worker id ready passed scores = record {
  worker_id = id;
  reference = id;
  canonical_hash = "h";
  organization_id = "org";
  workload_context_id = "ctx";
  evaluated_at = moment 5;
  expires_at = moment 90;
  ready = ready;
  capabilities = "gpu" ∷ [];
  hard_policy_pass = passed;
  evidence_consistent = true;
  scores = scores;
  evidence_references = [];
  schema_version = "worker-readiness.v1";
}

abbrev pub workers : List WorkerReadinessEvidence
workers =
    worker "a" true (some true) (("LOAD_BALANCE", "0.5") ∷ [])
    ∷ worker "b" true (some true) (("CAPABILITY_FIT", "1") ∷ ("LATENCY_OBJECTIVE", "0.25") ∷ [])
    ∷ worker "c" true (some false) []
    ∷ []

abbrev pub request_of : List WorkerReadinessEvidence → WorkerSelectionRequest
request_of readiness = record {
  organization_id = "org";
  workload_context_id = "ctx";
  execution_plan_reference = "plan";
  workload_requirements_reference = "needs";
  policy_constraints_reference = "limits";
  required_capabilities = "gpu" ∷ [];
  readiness = readiness;
  evaluation_boundary = moment 20;
  history_boundary = "boundary";
  preference_evidence_references = [];
  scoring_policy_version = "worker-selection.scoring.v1";
  evaluator_version = "v1";
  schema_version = "v1";
}

abbrev pub request : WorkerSelectionRequest
request = request_of workers

-- The same request without its last worker.
abbrev pub smaller : WorkerSelectionRequest
smaller = request_of (worker "a" true (some true) [] ∷ [])

-- What a run of the model unfolds.
unfoldable pub world : Bool
unfolding hex fold_bytes dump decimal_of canonical_value canonical_hash policy_for round_half_even
    quantized score_of normalized score_component score_components validate_request covered
    exclusion_reasons exclusion screen_one screen selection_outcome ranks_before explanation
    selection_id_of candidate ranked selection_of Evaluator.evaluate sorted_by insert_by text_le
    codes_le unique_texts String_discrete ℕ_discrete StreamKey_discrete OperationKey_discrete
    accepted publish append input_hash evaluate put empty_dict
world = true

abbrev pub evaluated : Result SelectionError WorkerSelection
evaluated = Evaluator.evaluate request 1

pub evaluated_runs : is_ok evaluated ≡ true
unfolding world
evaluated_runs = refl

abbrev ranking : Result SelectionError WorkerSelection → List (String × ℕ)
ranking (ok s) = map (λ (c : WorkerSelectionCandidate). (c.worker_id, c.score)) s.candidates
ranking (err e) = []

-- The worker with the higher score is first, and the one that policy filters is no candidate.
best_first : ranking evaluated ≡ ("b", 43750000) ∷ ("a", 2500000) ∷ []
unfolding world
best_first = refl
