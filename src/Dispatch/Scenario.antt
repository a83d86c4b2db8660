-- ===== src/Dispatch/Scenario.antt =====
-- A small world for runs of the model: evidence of one plan, worker and lease, and a request for it.
use edgeiq.Base.{
  ℕ, ◌*◌, String, ◌≡◌, refl, Bool, true, false, [], ◌∷◌, Result, ok, err, is_ok, put, empty_dict,
  String_discrete, text_eq,
}
use native.Mathlib.Decide.{ℕ_discrete}
use edgeiq.Base.Sorting.{sorted_by, insert_by}
use edgeiq.Platform.{
  aware, DateTime, DateTime_discrete, EvidenceReference, EvidenceReference_discrete,
  canonical_content, namespaced_digest, required_text, sha256_hex, utc_time, evidence_reference,
  sorted_texts, unique_texts, require_evidence, text_le, codes_le, reference_le, sorted_references,
}
use edgeiq.Platform.Plain.{plain, hex, fold_bytes, dump}
use edgeiq.Dispatch.Domain.{
  DispatchRequest, DispatchDecisionRecord, DispatchDecisionError, StreamKey_discrete,
  DispatchDecisionOutcome_discrete, dispatch_decision, supported_dispatch_schema_version,
  supported_dispatch_component_version, supported_serialization_version, DispatchDecision_discrete,
}
use edgeiq.Dispatch.Evidence.{
  RetainedPlanEvidence, RetainedReadinessEvidence, RetainedSelectionEvidence, RetainedLeaseEvidence,
  RetainedPlanEvidence_discrete, RetainedReadinessEvidence_discrete,
  RetainedSelectionEvidence_discrete, RetainedLeaseEvidence_discrete, build_plan_evidence,
  build_readiness_evidence, build_selection_evidence, build_lease_evidence, validate_plan,
  validate_readiness, validate_selection, validate_lease, candidate_le,
}
use edgeiq.Dispatch.Policy.{
  RegisteredDispatchPolicy, evaluate, registered_policy, policy_registry, policy_for,
}
use edgeiq.Dispatch.Serialization.{verify_recorded_content}
use edgeiq.Dispatch.Serialization.Build.{
  canonical_input_content, dispatch_idempotency_identity, decision_arguments,
  build_dispatch_decision,
}
use edgeiq.Dispatch.Repository.{IdempotencyKey_discrete, Bytes_discrete, append, publish}
use edgeiq.Dispatch.Resolve.{
  Sources, selected_candidate, reference_checks, require_readiness, resolve,
}
use edgeiq.Dispatch.Service.{prepare, get}

abbrev or_input {ℓ} : {E : Type 0} {A : Type ℓ} → A → Result E A → A
or_input a (ok b) = b
or_input a (err e) = a

abbrev pub moment : ℕ → DateTime
moment seconds = aware (seconds * 1000000)

abbrev sixty_four : String
sixty_four = "0123456789abcdef0123456789abcdef0123456789abcdef0123456789abcdef"

abbrev plan_input : RetainedPlanEvidence
plan_input = record {
  plan_id = "plan";
  organization_id = "org";
  workload_context_id = "ctx";
  work_item_ids = "item" ∷ [];
  schema_version = "execution-plan.v1";
  planning_rule_version = "execution-plan.rule.v1";
  canonical_digest = "";
  canonical_content = [];
}

pub plan : RetainedPlanEvidence
plan = or_input plan_input (build_plan_evidence plan_input)

abbrev readiness_input : RetainedReadinessEvidence
readiness_input = record {
  readiness_id = "ready";
  organization_id = "org";
  workload_context_id = "ctx";
  evaluated_at = moment 5;
  expires_at = moment 80;
  superseded = false;
  schema_version = "worker-readiness.v1";
  canonical_digest = "";
  canonical_content = [];
}

pub readiness : RetainedReadinessEvidence
readiness = or_input readiness_input (build_readiness_evidence readiness_input)

abbrev reference : String → String → EvidenceReference
reference id digest = record { artifact_id = id; canonical_digest = digest }

abbrev selection_input : RetainedSelectionEvidence
selection_input = record {
  selection_id = "selection";
  organization_id = "org";
  workload_context_id = "ctx";
  plan_reference = reference "plan" plan.canonical_digest;
  candidates =
      record {
        candidate_id = "worker";
        readiness_references = reference "ready" readiness.canonical_digest ∷ [];
      }
      ∷ [];
  evaluation_boundary = "boundary";
  schema_version = "worker-selection.v1";
  selection_policy_version = "worker-selection.scoring.v1";
  canonical_digest = "";
  canonical_content = [];
}

pub selection : RetainedSelectionEvidence
selection = or_input selection_input (build_selection_evidence selection_input)

abbrev lease_input : RetainedLeaseEvidence
lease_input = record {
  lease_id = "lease";
  organization_id = "org";
  workload_context_id = "ctx";
  plan_id = "plan";
  work_item_ids = "item" ∷ [];
  bounded_permission = true;
  effective_at = moment 1;
  expires_at = moment 60;
  revoked = false;
  causal_authorization_reference = reference "authorization" sixty_four;
  schema_version = "execution-lease.v1";
  lease_policy_version = "execution-lease.policy.v1";
  canonical_digest = "";
  canonical_content = [];
}

pub lease : RetainedLeaseEvidence
lease = or_input lease_input (build_lease_evidence lease_input)

abbrev no_policy : RegisteredDispatchPolicy
no_policy = record { policy_id = ""; policy_version = ""; canonical_digest = "" }

pub policy : RegisteredDispatchPolicy
policy = or_input no_policy (registered_policy "dispatch-policy" "dispatch-policy.v1")

pub request : DispatchRequest
request = record {
  organization_id = "org";
  workload_context_id = "ctx";
  plan_id = "plan";
  plan_digest = plan.canonical_digest;
  work_item_id = "item";
  selection_id = "selection";
  selection_digest = selection.canonical_digest;
  selected_candidate_id = "worker";
  lease_id = "lease";
  lease_digest = lease.canonical_digest;
  dispatch_policy_id = "dispatch-policy";
  dispatch_policy_version = "dispatch-policy.v1";
  dispatch_policy_digest = policy.canonical_digest;
  evaluation_boundary = "boundary";
  effective_at = moment 20;
  clock_source_id = "clock";
  clock_source_version = "clock.v1";
  configuration_version = "config";
  schema_version = supported_dispatch_schema_version;
  component_version = supported_dispatch_component_version;
  serialization_version = supported_serialization_version;
}

pub sources : Sources
sources = record {
  plans = put empty_dict "plan" plan;
  selections = put empty_dict "selection" selection;
  readiness = put empty_dict "ready" readiness;
  leases = put empty_dict "lease" lease;
}

-- What a run of the model unfolds.
unfoldable pub world : Bool
unfolding plan readiness selection lease policy request sources sorted_by insert_by ℕ_discrete
    String_discrete DateTime_discrete EvidenceReference_discrete canonical_content namespaced_digest
    required_text sha256_hex utc_time evidence_reference sorted_texts unique_texts require_evidence
    text_le codes_le reference_le sorted_references hex fold_bytes dump StreamKey_discrete
    DispatchDecisionOutcome_discrete dispatch_decision DispatchDecision_discrete
    RetainedPlanEvidence_discrete RetainedReadinessEvidence_discrete
    RetainedSelectionEvidence_discrete RetainedLeaseEvidence_discrete build_plan_evidence
    build_readiness_evidence build_selection_evidence build_lease_evidence validate_plan
    validate_readiness validate_selection validate_lease candidate_le evaluate registered_policy
    policy_registry policy_for verify_recorded_content canonical_input_content
    dispatch_idempotency_identity decision_arguments build_dispatch_decision IdempotencyKey_discrete
    Bytes_discrete append publish selected_candidate reference_checks require_readiness resolve
    prepare get put empty_dict
world = true

abbrev pub prepared : Result DispatchDecisionError DispatchDecisionRecord
prepared = prepare sources request 0 "k" (moment 30)

prepared_runs : is_ok prepared ≡ true
unfolding world
prepared_runs = refl
