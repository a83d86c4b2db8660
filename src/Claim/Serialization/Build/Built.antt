-- ===== src/Claim/Serialization/Build/Built.antt =====
-- A built event: its content verifies, and building it again at its recorded time gives it again.
use edgeiq.Base.{ℕ, String, List, map_result, ◌≡◌, ap, ◌∙◌, Result, ok, err, arith, ◌>>=◌}
use edgeiq.Platform.{
  Bytes, DateTime, Interpreter, InterpreterLaws, nfc-sha256, nfc-namespaced_digest,
  namespaced_digest, required_text, optional_text, sorted_texts,
}
use edgeiq.Dispatch.Domain.{DispatchDecisionRecord}
use edgeiq.Claim.Domain.{
  WorkClaimError, WorkClaimRequest, WorkClaimEvent, lineage_key, work_claim_event,
}
use edgeiq.Claim.Evidence.{RetainedClaimantEvidence}
use edgeiq.Claim.Policy.{RegisteredWorkClaimPolicy, WorkClaimDecision}
use edgeiq.Claim.Serialization.{
  canonical_input_content, lineage_identity, verify_recorded_content, input_digest_namespace,
  event_digest_namespace,
}
use edgeiq.Claim.Serialization.Build.{build_work_claim_event, construct}
use edgeiq.Claim.Serialization.Build.Facts.{
  arguments, arguments_at, event_id-nfc, lineage_id-nfc, made_plain, made_digests, made_again,
  made_causal, made_reasons, made_expires, Lasts, expiry-Lasts,
}

constructed :
    ⦃p : Interpreter⦄
    → (event : WorkClaimEvent) (input content : Bytes)
    → (m : Result WorkClaimError (WorkClaimEvent × Bytes × Bytes))
    → (m >>= construct) ≡ ok (event, input, content)
    → (e : WorkClaimEvent) × (m ≡ ok (e, input, content)) × (work_claim_event e ≡ ok event)
constructed event input content (ok (e, i, c)) h = (e, ground arith, ground arith)
constructed event input content (err x) h = cc

verified_of_digests :
    ⦃p : Interpreter⦄
    → (event : WorkClaimEvent) (input content : Bytes)
    → event.canonical_input_digest ≡ namespaced_digest input_digest_namespace input
    → event.canonical_event_digest ≡ namespaced_digest event_digest_namespace content
    → verify_recorded_content event input content ≡ ok tt
unfolding verify_recorded_content
verified_of_digests event input content h k = ground arith

module _ ⦃p : Interpreter⦄ (request : WorkClaimRequest) (dispatch : DispatchDecisionRecord)
    (claimant : RetainedClaimantEvidence) (policy : RegisteredWorkClaimPolicy)
    (d : WorkClaimDecision) (version : ℕ) (identity : String) (now : DateTime)
    (event : WorkClaimEvent) (input content : Bytes) where
  pub record Built : Type 0 where
    pub event_type : event.event_type ≡ d.event_type
    pub outcome : event.outcome ≡ d.outcome
    pub reasons :
        (rs : List String) × (map_result (required_text WorkClaimError.invalid) d.reason_codes
          ≡ ok rs)
        × (event.reason_codes ≡ sorted_texts rs)
    pub expires : Lasts request.semantic_at d.expires_at_delta_seconds event.expires_at
    pub generation : event.generation ≡ d.generation
    pub fence : event.fence ≡ d.fence
    pub causal : optional_text WorkClaimError.invalid d.causal_event_id ≡ ok event.causal_event_id
    pub version_kept : event.lineage_version ≡ version
    pub input_made : canonical_input_content request dispatch claimant policy ≡ ok input
    pub lineage : lineage_identity (lineage_key request) ≡ ok event.lineage_id
    pub verified : verify_recorded_content event input content ≡ ok tt
    pub again :
        build_work_claim_event request dispatch claimant policy d version identity event.recorded_at
        ≡ ok (event, input, content)
    pub id_fixed : p.nfc event.event_id ≡ event.event_id

  module _
      (made : build_work_claim_event request dispatch claimant policy d version identity now
        ≡ ok (event, input, content))
      (laws : InterpreterLaws p) where
    -- An event that `build_work_claim_event` returned carries the decision's type, outcome, generation,
    -- fence and cause, its reasons as normal texts in order, and the given version; it expires as many seconds
    -- after the request's semantic time as the decision says, and never where it says nothing; its recorded
    -- digests verify against both contents; and building it again at its recorded time gives the same event
    -- and contents.
    pub build-Built : Built
    unfolding build_work_claim_event
    build-Built =
        let (e, m, c) = constructed event input content _ made in
        let a = arguments request dispatch claimant policy d version identity now m in
        let at =
          arguments_at request dispatch claimant policy d version identity now m
            event.recorded_at in
        let plain = made_plain e c in
        let digests = made_digests e c in
        let causes = made_causal e c in
        let id_fixed =
          event_id-nfc request dispatch claimant policy d version identity now m
            (nfc-sha256 p laws) in
        let lineage_fixed =
          lineage_id-nfc request dispatch claimant policy d version identity now m
            (nfc-sha256 p laws) in
        let same_input =
          digests.2
          ∙ ap p.nfc a.input_digest
          ∙ nfc-namespaced_digest laws input_digest_namespace input in
        let same_content =
          digests.3
          ∙ ap p.nfc a.event_digest
          ∙ nfc-namespaced_digest laws event_digest_namespace content in
        record {
          event_type = cc;
          outcome = cc;
          reasons = rw (← a.reason_codes) (made_reasons e c);
          expires =
              expiry-Lasts request.semantic_at d.expires_at_delta_seconds a.expires
                (made_expires e c);
          generation = cc;
          fence = cc;
          causal = cc (a.causal, causes);
          version_kept = cc;
          input_made = a.input_made;
          lineage = cc;
          verified = verified_of_digests event input content same_input same_content;
          again = rw (at, made_again e c);
          id_fixed = cc;
        }
