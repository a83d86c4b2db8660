-- ===== src/Claim/Serialization/Build/Facts.antt =====
-- What a built event holds.
use edgeiq.Base.{ℕ, ◌+◌, ◌*◌, String, ◌≡◌, Option, none, some, List, map_result, ok, arith, text_eq}
use edgeiq.Platform.{
  Bytes, DateTime, Interpreter, namespaced_digest, sha256_hex, required_text, optional_text,
  utc_time, optional_utc_time, sorted_texts, add_seconds, instant, aware, naive,
}
use edgeiq.Dispatch.Domain.{DispatchDecisionRecord}
use edgeiq.Claim.Domain.{
  WorkClaimError, WorkClaimRequest, WorkClaimEvent, lineage_key, work_claim_event,
}
use edgeiq.Claim.Evidence.{RetainedClaimantEvidence}
use edgeiq.Claim.Policy.{RegisteredWorkClaimPolicy, WorkClaimDecision}
use edgeiq.Claim.Serialization.{
  canonical_input_content, lineage_identity, event_digest_namespace, input_digest_namespace,
}
use edgeiq.Claim.Serialization.Build.{event_arguments, expiry}

-- Nothing expires that has no duration, and else it expires as many seconds later.
abbrev pub Lasts : DateTime → Option ℕ → Option DateTime → Type 0
Lasts t none none = Unit
Lasts t (some seconds) (some expires) = instant expires ≡ instant t + seconds * 1000000
Lasts t _ _ = ⊥

pub expiry-Lasts :
    (t : DateTime) (seconds : Option ℕ) {x y : Option DateTime}
    → expiry t seconds ≡ ok x
    → optional_utc_time WorkClaimError.invalid x ≡ ok y
    → Lasts t seconds y
unfolding optional_utc_time utc_time add_seconds
expiry-Lasts t none {y = none} h k = tt
expiry-Lasts t none {y = some e} h k = ground arith
expiry-Lasts (aware t) (some seconds) {y = none} h k = ground arith
expiry-Lasts (aware t) (some seconds) {y = some e} h k = ground arith
expiry-Lasts (naive t) (some seconds) {y = none} h k = ground arith
expiry-Lasts (naive t) (some seconds) {y = some e} h k = ground arith

module _ ⦃p : Interpreter⦄ (e : WorkClaimEvent) {e' : WorkClaimEvent}
    (made : work_claim_event e ≡ ok e') where
  pub made_plain :
      (e'.event_type ≡ e.event_type)
      × (e'.outcome ≡ e.outcome)
      × (e'.generation ≡ e.generation)
      × (e'.fence ≡ e.fence)
      × (e'.lineage_version ≡ e.lineage_version)
  unfolding work_claim_event
  made_plain = ground arith

  pub made_digests :
      (e'.event_id ≡ p.nfc e.event_id)
      × (e'.lineage_id ≡ p.nfc e.lineage_id)
      × (e'.canonical_input_digest ≡ p.nfc e.canonical_input_digest)
      × (e'.canonical_event_digest ≡ p.nfc e.canonical_event_digest)
  unfolding work_claim_event sha256_hex
  made_digests = ground arith

  pub made_again : work_claim_event (record e { recorded_at = e'.recorded_at }) ≡ ok e'
  unfolding work_claim_event utc_time
  made_again = ground arith

  pub made_reasons :
      (rs : List String) × (map_result (required_text WorkClaimError.invalid) e.reason_codes
        ≡ ok rs)
      × (e'.reason_codes ≡ sorted_texts rs)
  unfolding work_claim_event
  made_reasons = ground arith

  pub made_expires : optional_utc_time WorkClaimError.invalid e.expires_at ≡ ok e'.expires_at
  unfolding work_claim_event
  made_expires = ground arith

  pub made_causal : optional_text WorkClaimError.invalid e.causal_event_id ≡ ok e'.causal_event_id
  unfolding work_claim_event
  made_causal = ground arith

module _ ⦃p : Interpreter⦄ (request : WorkClaimRequest) (dispatch : DispatchDecisionRecord)
    (claimant : RetainedClaimantEvidence) (policy : RegisteredWorkClaimPolicy)
    (d : WorkClaimDecision) (version : ℕ) (identity : String) (now : DateTime) where
  -- The arguments of the event, which the source passes to the constructor.
  pub record Arguments (e : WorkClaimEvent) (input content : Bytes) : Type 0 where
    pub event_type : e.event_type ≡ d.event_type
    pub outcome : e.outcome ≡ d.outcome
    pub reason_codes : e.reason_codes ≡ d.reason_codes
    pub expires : expiry request.semantic_at d.expires_at_delta_seconds ≡ ok e.expires_at
    pub generation : e.generation ≡ d.generation
    pub fence : e.fence ≡ d.fence
    pub causal : e.causal_event_id ≡ d.causal_event_id
    pub version_kept : e.lineage_version ≡ version
    pub input_made : canonical_input_content request dispatch claimant policy ≡ ok input
    pub lineage : lineage_identity (lineage_key request) ≡ ok e.lineage_id
    pub input_digest : e.canonical_input_digest ≡ namespaced_digest input_digest_namespace input
    pub event_digest : e.canonical_event_digest ≡ namespaced_digest event_digest_namespace content

  module _ {e : WorkClaimEvent} {input content : Bytes}
      (made : event_arguments request dispatch claimant policy d version identity now
        ≡ ok (e, input, content)) where
    pub arguments : Arguments e input content
    unfolding event_arguments
    arguments = ground arith

    pub arguments_at :
        (at : DateTime)
        → event_arguments request dispatch claimant policy d version identity at
          ≡ ok (record e { recorded_at = at }, input, content)
    unfolding event_arguments
    arguments_at at = ground arith

    pub event_id-nfc :
        ((b : Bytes) → p.nfc (p.sha256 b) ≡ p.sha256 b) → p.nfc e.event_id ≡ e.event_id
    unfolding event_arguments namespaced_digest
    event_id-nfc h = grind (arith, h)

    pub lineage_id-nfc :
        ((b : Bytes) → p.nfc (p.sha256 b) ≡ p.sha256 b) → p.nfc e.lineage_id ≡ e.lineage_id
    unfolding event_arguments lineage_identity namespaced_digest
    lineage_id-nfc h = grind (arith, h)
