-- ===== src/Claim/Scenario.antt =====
-- A small world for runs of the model: one approved dispatch decision, one claimant, and requests of
-- one work item's lineage.
use edgeiq.Base.{
  ℕ, ◌*◌, String, ◌≡◌, refl, Bool, true, Option, none, List, [], ◌∷◌, Result, ok, err, put,
  empty_dict, text_eq, is_ok, ◌>>=◌, String_discrete,
}
use native.Mathlib.Decide.{ℕ_discrete}
use edgeiq.Platform.{
  DateTime, aware, EvidenceReference, namespaced_digest, require_evidence, DateTime_discrete,
  EvidenceReference_discrete, canonical_content, utc_time, required_text, sha256_hex, optional_text,
  optional_utc_time, add_seconds, evidence_reference, sorted_texts, unique_texts,
}
use edgeiq.Platform.Plain.{plain, hex, fold_bytes, dump}
use edgeiq.Dispatch.Domain.{
  DispatchDecisionOutcome_discrete, DispatchDecisionRecord, approved, dispatch_record_eq,
  supported_dispatch_schema_version, supported_dispatch_component_version,
}
use edgeiq.Dispatch.Serialization
use edgeiq.Claim.Domain.{
  WorkClaimError, WorkClaimOperation, WorkClaimRequest, create_generation, claim, expire,
  supported_serialization_version, supported_work_claim_schema_version,
  supported_work_claim_component_version, LineageKey_discrete, Bytes_discrete,
  WorkClaimEvent_discrete, WorkClaimEventType_discrete, WorkClaimOutcome_discrete, work_claim_event,
}
use edgeiq.Claim.Evidence.{
  RetainedClaimantEvidence_discrete, validate_dispatch_record, validate_claimant_evidence,
  RetainedClaimantEvidence, build_claimant_evidence, claimant_eq,
  supported_claimant_evidence_schema, supported_claimant_producer_version,
}
use edgeiq.Claim.Policy.{RegisteredWorkClaimPolicy, decide}
use edgeiq.Claim.Policy.Registry.{policy_registry, policy_for}
use edgeiq.Claim.Serialization as ClaimSerialization
use edgeiq.Claim.Serialization.{
  lineage_identity, work_claim_idempotency_identity, canonical_input_content, input_document,
  event_document,
}
use edgeiq.Claim.Serialization.Build.{event_arguments, build_work_claim_event}
use edgeiq.Claim.State.{advance_state, option_text_discrete, option_nat_discrete}
use edgeiq.Claim.Repository.{
  RepositoryState, empty_repository, IdempotencyKey_discrete, idempotent, append, publish,
}
use edgeiq.Claim.Replay.{
  Sources, resolve, resolve_checks, prepare, replay, replay_from, replay_record, decide_and_build,
}
use edgeiq.Claim.Service.{evaluate}

abbrev pub sixty_four : String
sixty_four = "0123456789abcdef0123456789abcdef0123456789abcdef0123456789abcdef"

abbrev pub reference : String → EvidenceReference
reference id = record { artifact_id = id; canonical_digest = sixty_four }

abbrev pub moment : ℕ → DateTime
moment seconds = aware (seconds * 1000000)

pub dispatch : DispatchDecisionRecord
dispatch = record {
  request = record {
    organization_id = "org";
    workload_context_id = "ctx";
    plan_id = "plan";
    plan_digest = sixty_four;
    work_item_id = "item";
    selection_id = "selection";
    selection_digest = sixty_four;
    selected_candidate_id = "worker";
    lease_id = "lease";
    lease_digest = sixty_four;
    dispatch_policy_id = "policy";
    dispatch_policy_version = "v1";
    dispatch_policy_digest = sixty_four;
    evaluation_boundary = "boundary";
    effective_at = moment 10;
    clock_source_id = "clock";
    clock_source_version = "clock.v1";
    configuration_version = "config";
    schema_version = supported_dispatch_schema_version;
    component_version = supported_dispatch_component_version;
    serialization_version = supported_serialization_version;
  };
  decision = record {
    dispatch_decision_id = "dispatch";
    organization_id = "org";
    workload_context_id = "ctx";
    plan_reference = reference "plan";
    work_item_id = "item";
    selection_reference = reference "selection";
    selected_candidate_id = "worker";
    readiness_references = [];
    lease_reference = reference "lease";
    causal_authorization_reference = reference "authorization";
    dispatch_policy_reference = reference "policy";
    dispatch_policy_version = "v1";
    outcome = approved;
    reason_codes = "APPROVED" ∷ [];
    canonical_input_digest = namespaced_digest Serialization.input_digest_namespace (1 ∷ []);
    canonical_decision_digest = namespaced_digest Serialization.decision_digest_namespace (2 ∷ []);
    stream_version = 1;
    idempotency_identity = sixty_four;
    reconstruction_metadata = record {
      history_boundary = "boundary";
      effective_at = moment 10;
      clock_source_id = "clock";
      clock_source_version = "clock.v1";
      configuration_version = "config";
      component_version = supported_dispatch_component_version;
      serialization_version = supported_serialization_version;
    };
    recorded_at = moment 10;
    schema_version = supported_dispatch_schema_version;
  };
  idempotency_identity = sixty_four;
  canonical_input_content = 1 ∷ [];
  canonical_decision_content = 2 ∷ [];
}

abbrev pub or_default {ℓ} : {E : Type 0} {A : Type ℓ} → A → Result E A → A
or_default a (ok b) = b
or_default a (err e) = a

pub default_answer :
    {E : Type 0} {A : Type 0} (a : A) (m : Result E A) → is_ok m ≡ true → m ≡ ok (or_default a m)
default_answer a (ok b) h = refl
default_answer a (err e) h = cc

pub claimant : RetainedClaimantEvidence
claimant =
    or_default
      (record {
        evidence_id = "";
        claimant_id = "";
        selected_candidate_id = "";
        organization_id = "";
        workload_context_id = "";
        authentication_boundary = "";
        effective_at = moment 0;
        expires_at = moment 0;
        schema_version = "";
        producer_version = "";
        canonical_digest = "";
        canonical_content = [];
      })
      (build_claimant_evidence "evidence" "claimant" "worker" "org" "ctx" "auth" (moment 5)
        (moment 5000) supported_claimant_evidence_schema supported_claimant_producer_version)

abbrev no_policy : RegisteredWorkClaimPolicy
no_policy = record {
  policy_id = "";
  policy_version = "";
  claim_ttl_seconds = 0;
  canonical_digest = "";
}

abbrev first : List RegisteredWorkClaimPolicy → RegisteredWorkClaimPolicy
first [] = no_policy
first (q ∷ qs) = q

-- A request of the one lineage, at the given time and expected version.
pub request : WorkClaimOperation → ℕ → ℕ → String → Option String → WorkClaimRequest
request operation seconds version key reason = record {
  operation = operation;
  organization_id = "org";
  workload_context_id = "ctx";
  plan_id = "plan";
  work_item_id = "item";
  dispatch_decision_id = "dispatch";
  dispatch_decision_digest = dispatch.decision.canonical_decision_digest;
  claimant_evidence_id = "evidence";
  claimant_evidence_digest = claimant.canonical_digest;
  selected_candidate_id = "worker";
  claim_policy_id = "work-claim-policy";
  claim_policy_version = "work-claim-policy.v1";
  claim_policy_digest = (first (or_default [] policy_registry)).canonical_digest;
  evidence_boundary = "boundary";
  semantic_at = moment seconds;
  clock_source_id = "clock";
  clock_source_version = "clock.v1";
  configuration_version = "config";
  expected_lineage_version = version;
  idempotency_key = key;
  release_reason = reason;
  schema_version = supported_work_claim_schema_version;
  component_version = supported_work_claim_component_version;
  serialization_version = supported_serialization_version;
}

pub sources : Sources
sources = record {
  dispatches = put empty_dict "dispatch" dispatch;
  claimants = put empty_dict "evidence" claimant;
}

-- The requests of a list, one after another.
unfoldable pub serve :
    Sources → RepositoryState → List WorkClaimRequest → Result WorkClaimError RepositoryState
serve held r [] = ok r
serve held r (q ∷ qs) = do (r', result) ← evaluate held r q (moment 9000); serve held r' qs

-- What a run of the model unfolds.
unfoldable pub world : Bool
unfolding serve evaluate resolve require_evidence resolve_checks sources request dispatch claimant
    put empty_dict String_discrete ℕ_discrete LineageKey_discrete Bytes_discrete
    IdempotencyKey_discrete DispatchDecisionOutcome_discrete RetainedClaimantEvidence_discrete
    DateTime_discrete WorkClaimEvent_discrete WorkClaimEventType_discrete WorkClaimOutcome_discrete
    EvidenceReference_discrete option_text_discrete option_nat_discrete validate_dispatch_record
    validate_claimant_evidence build_claimant_evidence Serialization.verify_recorded_content
    ClaimSerialization.verify_recorded_content namespaced_digest canonical_content hex fold_bytes
    dump utc_time required_text sha256_hex optional_text optional_utc_time add_seconds
    evidence_reference sorted_texts unique_texts policy_for decide lineage_identity
    work_claim_idempotency_identity canonical_input_content input_document event_document
    event_arguments build_work_claim_event work_claim_event prepare replay replay_from replay_record
    decide_and_build advance_state idempotent append publish
world = true

abbrev pub opening : WorkClaimRequest
opening = request create_generation 20 0 "k0" none

abbrev pub claiming : WorkClaimRequest
claiming = request claim 30 1 "k1" none

-- The claim lasts 300 seconds.
abbrev pub expiring : WorkClaimRequest
expiring = request expire 330 2 "k2" none

abbrev pub script : List WorkClaimRequest
script = opening ∷ claiming ∷ expiring ∷ []

-- A generation is created, claimed and expired.
pub script_runs : is_ok (serve sources empty_repository script) ≡ true
unfolding world
script_runs = refl
