-- ===== src/Claim/Evidence.antt =====
-- app/runtime/work_claim/evidence.py: claimant evidence, and the two evidence sources of the service.
use edgeiq.Base.{
  String, not, Result, ok, ◌>>=◌, ◌>>◌, guard, reraise, Eq, ◌==◌, text_eq, [], ◌∷◌, String_discrete,
  ◌&&◌,
}
use native.Mathlib.Decide.{ℕ_discrete}
use edgeiq.Platform.{
  Bytes, DateTime, DateTime_discrete, Interpreter, SourceKind, required_text, utc_time, before,
  text, time, document, canonical_content, namespaced_digest,
}
use edgeiq.Dispatch.Domain.{DispatchDecisionRecord, approved, outcome_eq}
use edgeiq.Dispatch.Serialization.{verify_recorded_content}
use edgeiq.Claim.Domain.{WorkClaimError, invalid, digest_mismatch, version_unsupported}

abbrev pub claimant_evidence_namespace : String
claimant_evidence_namespace = "edgeiq.work-claim-claimant-evidence.v1"

abbrev pub supported_claimant_evidence_schema : String
supported_claimant_evidence_schema = "claimant-evidence.v1"

abbrev pub supported_claimant_producer_version : String
supported_claimant_producer_version = "claimant-evidence.producer.v1"

pub record RetainedClaimantEvidence : Type 0 where
  pub evidence_id : String
  pub claimant_id : String
  pub selected_candidate_id : String
  pub organization_id : String
  pub workload_context_id : String
  pub authentication_boundary : String
  pub effective_at : DateTime
  pub expires_at : DateTime
  pub schema_version : String
  pub producer_version : String
  pub canonical_digest : String
  pub canonical_content : Bytes

unfoldable pub RetainedClaimantEvidence_discrete : Discrete RetainedClaimantEvidence
RetainedClaimantEvidence_discrete = hlevel (String_discrete, ℕ_discrete, DateTime_discrete)

instance abbrev pub claimant_eq : Eq RetainedClaimantEvidence
claimant_eq = record { dec = RetainedClaimantEvidence_discrete }

module _ ⦃p : Interpreter⦄ where
  unfoldable pub build_claimant_evidence :
      (evidence_id claimant_id selected_candidate_id organization_id workload_context_id : String)
      (authentication_boundary : String) (effective_at expires_at : DateTime)
      (schema_version producer_version : String)
      → Result WorkClaimError RetainedClaimantEvidence
  build_claimant_evidence evidence_id claimant_id selected_candidate_id organization_id
        workload_context_id authentication_boundary effective_at expires_at schema_version
        producer_version =
      do
        effective ← utc_time invalid effective_at
        expires ← utc_time invalid expires_at
        guard (not (before expires effective)) invalid
        boundary ← required_text invalid authentication_boundary
        claimant ← required_text invalid claimant_id
        evidence ← required_text invalid evidence_id
        organization ← required_text invalid organization_id
        candidate ← required_text invalid selected_candidate_id
        workload ← required_text invalid workload_context_id
        content ← canonical_content invalid (
            document (
              ("authentication_boundary", text boundary)
              ∷ ("claimant_id", text claimant)
              ∷ ("effective_at", time effective)
              ∷ ("evidence_id", text evidence)
              ∷ ("expires_at", time expires)
              ∷ ("organization_id", text organization)
              ∷ ("producer_version", text producer_version)
              ∷ ("schema_version", text schema_version)
              ∷ ("selected_candidate_id", text candidate)
              ∷ ("workload_context_id", text workload)
              ∷ []))
        ok (record {
          evidence_id = evidence;
          claimant_id = claimant;
          selected_candidate_id = candidate;
          organization_id = organization;
          workload_context_id = workload;
          authentication_boundary = boundary;
          effective_at = effective;
          expires_at = expires;
          schema_version = schema_version;
          producer_version = producer_version;
          canonical_digest = namespaced_digest claimant_evidence_namespace content;
          canonical_content = content;
        })

  unfoldable pub validate_claimant_evidence :
      RetainedClaimantEvidence → Result WorkClaimError (Unit {0})
  validate_claimant_evidence value = do
    guard
        (value.schema_version == supported_claimant_evidence_schema
          && value.producer_version == supported_claimant_producer_version)
        version_unsupported
    rebuilt ←
        build_claimant_evidence value.evidence_id value.claimant_id value.selected_candidate_id
          value.organization_id value.workload_context_id value.authentication_boundary
          value.effective_at value.expires_at value.schema_version value.producer_version
    guard (rebuilt == value) digest_mismatch

  unfoldable pub validate_dispatch_record :
      DispatchDecisionRecord → Result WorkClaimError (Unit {0})
  validate_dispatch_record r = do
    reraise digest_mismatch
        (verify_recorded_content r.decision r.canonical_input_content r.canonical_decision_content)
    guard (r.decision.outcome == approved) invalid

  abbrev pub claimant_source : SourceKind WorkClaimError RetainedClaimantEvidence
  claimant_source = record {
    identity = λ value. value.evidence_id;
    validator = validate_claimant_evidence;
    organization = λ value. value.organization_id;
    workload = λ value. value.workload_context_id;
  }

  abbrev pub dispatch_source : SourceKind WorkClaimError DispatchDecisionRecord
  dispatch_source = record {
    identity = λ value. value.decision.dispatch_decision_id;
    validator = validate_dispatch_record;
    organization = λ value. value.decision.organization_id;
    workload = λ value. value.decision.workload_context_id;
  }
