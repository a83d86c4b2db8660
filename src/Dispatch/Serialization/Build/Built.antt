-- ===== src/Dispatch/Serialization/Build/Built.antt =====
-- A built decision: its contents verify, and building it again at its recorded time gives it again.
use edgeiq.Base.{ℕ, String, ◌≡◌, refl, ap, sym, subst, ◌∙◌, Result, ok, err, arith, ◌>>=◌, text_eq}
use edgeiq.Base.Sorting.{Chain}
use edgeiq.Platform.{
  Bytes, DateTime, Interpreter, InterpreterLaws, nfc-namespaced_digest, namespaced_digest,
  sha256_hex, utc_time, text_le,
}
use edgeiq.Dispatch.Domain.{DispatchDecisionError, DispatchDecision, dispatch_decision}
use edgeiq.Dispatch.Policy.{VerifiedDispatchEvidence, RegisteredDispatchPolicy, evaluate}
use edgeiq.Dispatch.Serialization.{
  input_digest_namespace, decision_digest_namespace, verify_recorded_content,
}
use edgeiq.Dispatch.Serialization.Build.Settled.{
  Settled, evaluate-Settled, evaluate-Chain, dispatch_decision_again,
}
use edgeiq.Dispatch.Serialization.Build.{
  canonical_input_content, decision_arguments, construct, build_dispatch_decision,
}

module _ ⦃p : Interpreter⦄ (d : DispatchDecision) {d' : DispatchDecision}
    (made : dispatch_decision d ≡ ok d') where
  made_plain :
      (d'.outcome ≡ d.outcome)
      × (d'.stream_version ≡ d.stream_version)
      × (d'.organization_id ≡ d.organization_id)
  unfolding dispatch_decision
  made_plain = ground arith

  made_digests :
      (d'.canonical_input_digest ≡ p.nfc d.canonical_input_digest)
      × (d'.canonical_decision_digest ≡ p.nfc d.canonical_decision_digest)
      × (d'.dispatch_decision_id ≡ p.nfc d.dispatch_decision_id)
  unfolding dispatch_decision sha256_hex
  made_digests = ground arith

  made_again : dispatch_decision (record d { recorded_at = d'.recorded_at }) ≡ ok d'
  unfolding dispatch_decision utc_time
  made_again = ground arith

module _ ⦃p : Interpreter⦄ (e : VerifiedDispatchEvidence) (policy : RegisteredDispatchPolicy)
    (version : ℕ) (identity : String) (now : DateTime) where
  record Arguments (d : DispatchDecision) (input content : Bytes) : Type 0 where
    pub outcome : d.outcome ≡ (evaluate e).0
    pub reason_codes : d.reason_codes ≡ (evaluate e).1
    pub version_kept : d.stream_version ≡ version
    pub organization : d.organization_id ≡ e.request.organization_id
    pub input_made : canonical_input_content e policy ≡ ok input
    pub input_digest : d.canonical_input_digest ≡ namespaced_digest input_digest_namespace input
    pub decision_digest :
        d.canonical_decision_digest ≡ namespaced_digest decision_digest_namespace content

  module _ {d : DispatchDecision} {input content : Bytes}
      (made : decision_arguments e policy version identity now ≡ ok (d, input, content)) where
    arguments : Arguments d input content
    unfolding decision_arguments
    arguments = ground arith

    arguments_at :
        (at : DateTime)
        → decision_arguments e policy version identity at
          ≡ ok (record d { recorded_at = at }, input, content)
    unfolding decision_arguments
    arguments_at at = ground arith

constructed :
    ⦃p : Interpreter⦄
    → (d : DispatchDecision) (input content : Bytes)
    → (m : Result DispatchDecisionError (DispatchDecision × Bytes × Bytes))
    → (m >>= construct) ≡ ok (d, input, content)
    → (a : DispatchDecision) × (m ≡ ok (a, input, content)) × (dispatch_decision a ≡ ok d)
constructed d input content (ok (a, i, c)) h = (a, ground arith, ground arith)
constructed d input content (err x) h = cc

verified_of_digests :
    ⦃p : Interpreter⦄
    → (d : DispatchDecision) (input content : Bytes)
    → d.canonical_input_digest ≡ namespaced_digest input_digest_namespace input
    → d.canonical_decision_digest ≡ namespaced_digest decision_digest_namespace content
    → verify_recorded_content d input content ≡ ok tt
unfolding verify_recorded_content
verified_of_digests d input content h k = ground arith

module _ ⦃p : Interpreter⦄ (e : VerifiedDispatchEvidence) (policy : RegisteredDispatchPolicy)
    (version : ℕ) (identity : String) (d : DispatchDecision) (input content : Bytes) where
  pub record Built : Type 0 where
    pub outcome : d.outcome ≡ (evaluate e).0
    pub version_kept : d.stream_version ≡ version
    pub organization : d.organization_id ≡ e.request.organization_id
    pub input_made : canonical_input_content e policy ≡ ok input
    pub verified : verify_recorded_content d input content ≡ ok tt
    pub settled : dispatch_decision d ≡ ok d
    pub again :
        build_dispatch_decision e policy version identity d.recorded_at ≡ ok (d, input, content)

  -- A decision that `build_dispatch_decision` returned has the policy's outcome and the given version, its
  -- digests verify against both contents, and both its constructor and building it at its recorded time give
  -- it again.
  pub decision-Built :
      InterpreterLaws p
      → (now : DateTime)
      → build_dispatch_decision e policy version identity now ≡ ok (d, input, content)
      → Built
  unfolding build_dispatch_decision
  decision-Built laws now made =
      let (a, m, c) = constructed d input content _ made in
      let args = arguments e policy version identity now m in
      let plain = made_plain a c in
      let digests = made_digests a c in
      record {
        outcome = plain.0 ∙ args.outcome;
        version_kept = plain.1 ∙ args.version_kept;
        organization = plain.2 ∙ args.organization;
        input_made = args.input_made;
        verified =
            verified_of_digests d input content
              (digests.0
                ∙ ap p.nfc args.input_digest
                ∙ nfc-namespaced_digest laws input_digest_namespace input)
              (digests.1
                ∙ ap p.nfc args.decision_digest
                ∙ nfc-namespaced_digest laws decision_digest_namespace content);
        settled =
            dispatch_decision_again laws a c
              (subst (Settled laws) (sym args.reason_codes) (evaluate-Settled laws e))
              (subst (Chain text_le) (sym args.reason_codes) (evaluate-Chain laws e));
        again =
            rw (arguments_at e policy version identity now m d.recorded_at, made_again a c) refl;
      }
