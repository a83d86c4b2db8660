-- ===== src/Dispatch/Serialization/Build/Settled.antt =====
-- `DispatchDecision.__post_init__` on a decision that it returned: it returns it again.
use edgeiq.Base.{
  String, ◌≡◌, refl, ap, ◌∙◌, sym, Bool, true, false, List, [], ◌∷◌, ◌++◌, ok, arith, text_eq, All,
  map_result, all, any, not, ◌||◌, ok-injective,
}
use edgeiq.Base.Sorting.{sorted_by-Permᴰ, All-Permᴰ, Chain, sorted_by-Chain}
use mathlib.Core.List.Permᴰ
use edgeiq.Platform.{
  Interpreter, InterpreterLaws, is_ascii, before, text_le, codes, required_text, sha256_hex,
  utc_time, sorted_texts, sorted_references,
}
use edgeiq.Platform.TextOrder.{text_le-IsOrder}
use edgeiq.Platform.Settled.{
  IsSettled, ascii-IsSettled, map_result-IsSettled, sorted_texts-fixed, sorted_references_again,
  sha256_hex_again,
}
use edgeiq.Dispatch.Domain.{DispatchDecisionError, DispatchDecision, dispatch_decision}
use edgeiq.Dispatch.Evidence.{RetainedReadinessEvidence}
use edgeiq.Dispatch.Policy.{VerifiedDispatchEvidence, evaluate, decided, when, denial_reasons}

module _ ⦃p : Interpreter⦄ (laws : InterpreterLaws p) where
  abbrev pub Settled : List String → Type 0
  Settled ss = All (IsSettled DispatchDecisionError.invalid) ss

  reason :
      (s : String)
      → all is_ascii (codes s) ≡ true
      → ¬ (s ≡ "")
      → IsSettled DispatchDecisionError.invalid s
  reason = ascii-IsSettled DispatchDecisionError.invalid laws

  when-Settled :
      (b : Bool) (s : String) → IsSettled DispatchDecisionError.invalid s → Settled (when b s)
  when-Settled true s h = (h, tt)
  when-Settled false s h = tt

  decided-Settled : (ss : List String) → Settled ss → Settled (decided ss).1
  decided-Settled [] h = (reason "OFFER_APPROVED" refl (λ e. cc), tt)
  decided-Settled (s ∷ ss) h =
      All-Permᴰ (IsSettled DispatchDecisionError.invalid)
        (Permᴰ.symm (sorted_by-Permᴰ text_le (s ∷ ss))) h

  decided-Chain : (ss : List String) → Chain text_le (decided ss).1
  decided-Chain [] = tt
  decided-Chain (s ∷ ss) = sorted_by-Chain text_le text_le-IsOrder.total (s ∷ ss)

  when-append-Settled :
      (b : Bool) (s : String) (ts : List String)
      → IsSettled DispatchDecisionError.invalid s
      → Settled ts
      → Settled (when b s ++ ts)
  when-append-Settled true s ts h k = (h, k)
  when-append-Settled false s ts h k = k

  reasons-Settled :
      (inapplicable late revoked stale superseded : Bool)
      → Settled (
          when inapplicable "LEASE_INAPPLICABLE"
          ++ (when late "LEASE_EXPIRED"
              ++ (when revoked "LEASE_REVOKED"
                  ++ (when stale "READINESS_EXPIRED" ++ when superseded "READINESS_SUPERSEDED"))))
  reasons-Settled a b c d e =
      when-append-Settled a "LEASE_INAPPLICABLE" _ (reason "LEASE_INAPPLICABLE" refl (λ e. cc)) (
        when-append-Settled b "LEASE_EXPIRED" _ (reason "LEASE_EXPIRED" refl (λ e. cc)) (
          when-append-Settled c "LEASE_REVOKED" _ (reason "LEASE_REVOKED" refl (λ e. cc)) (
            when-append-Settled d "READINESS_EXPIRED" _ (reason "READINESS_EXPIRED" refl (λ e. cc))
              (when-Settled e "READINESS_SUPERSEDED"
                (reason "READINESS_SUPERSEDED" refl (λ e. cc))))))

  denial_reasons-Settled : (e : VerifiedDispatchEvidence) → Settled (denial_reasons e)
  denial_reasons-Settled e =
      let instant = e.request.effective_at in
      reasons-Settled (not e.lease.bounded_permission || before instant e.lease.effective_at)
        (before e.lease.expires_at instant) e.lease.revoked
        (any (λ (r : RetainedReadinessEvidence). before r.expires_at instant) e.readiness)
        (any (λ (r : RetainedReadinessEvidence). r.superseded) e.readiness)

  -- The policy's reasons are plain texts in order, which the constructor leaves as they are.
  pub evaluate-Settled : (e : VerifiedDispatchEvidence) → Settled (evaluate e).1
  unfolding evaluate
  evaluate-Settled e = decided-Settled (denial_reasons e) (denial_reasons-Settled e)

  pub evaluate-Chain : (e : VerifiedDispatchEvidence) → Chain text_le (evaluate e).1
  unfolding evaluate
  evaluate-Chain e = decided-Chain (denial_reasons e)

  again :
      (s : String) {v : String}
      → sha256_hex DispatchDecisionError.invalid s ≡ ok v
      → sha256_hex DispatchDecisionError.invalid v ≡ ok v
  again s = sha256_hex_again DispatchDecisionError.invalid laws s

  module _ (a : DispatchDecision) {d : DispatchDecision} (made : dispatch_decision a ≡ ok d) where
    digests_taken :
        (sha256_hex DispatchDecisionError.invalid a.dispatch_decision_id
          ≡ ok d.dispatch_decision_id)
        × (sha256_hex DispatchDecisionError.invalid a.canonical_input_digest
            ≡ ok d.canonical_input_digest)
        × (sha256_hex DispatchDecisionError.invalid a.canonical_decision_digest
            ≡ ok d.canonical_decision_digest)
        × (sha256_hex DispatchDecisionError.invalid a.idempotency_identity
            ≡ ok d.idempotency_identity)
    unfolding dispatch_decision
    digests_taken = ground arith

    lists_taken :
        (rs : List String) × (map_result
            (required_text DispatchDecisionError.invalid)
            a.reason_codes
          ≡ ok rs)
        × (d.reason_codes ≡ sorted_texts rs)
        × (d.readiness_references ≡ sorted_references a.readiness_references)
    unfolding dispatch_decision
    lists_taken = ground arith

    taken_again :
        sha256_hex DispatchDecisionError.invalid d.dispatch_decision_id ≡ ok d.dispatch_decision_id
        → sha256_hex DispatchDecisionError.invalid d.canonical_input_digest
          ≡ ok d.canonical_input_digest
        → sha256_hex DispatchDecisionError.invalid d.canonical_decision_digest
          ≡ ok d.canonical_decision_digest
        → sha256_hex DispatchDecisionError.invalid d.idempotency_identity
          ≡ ok d.idempotency_identity
        → map_result (required_text DispatchDecisionError.invalid) a.reason_codes
          ≡ ok a.reason_codes
        → sorted_texts a.reason_codes ≡ a.reason_codes
        → d.reason_codes ≡ a.reason_codes
        → sorted_references d.readiness_references ≡ d.readiness_references
        → dispatch_decision d ≡ ok d
    unfolding dispatch_decision utc_time
    taken_again h i j k l m n o = ground arith

    -- A decision that the constructor returned, of reasons that are plain texts in order, is one that it
    -- returns again.
    pub dispatch_decision_again :
        Settled a.reason_codes → Chain text_le a.reason_codes → dispatch_decision d ≡ ok d
    dispatch_decision_again plain ordered =
        let (id, input, content, identity) = digests_taken in
        let (rs, read, reasons, references) = lists_taken in
        let kept = map_result-IsSettled DispatchDecisionError.invalid a.reason_codes plain in
        let fixed = sorted_texts-fixed a.reason_codes ordered in
        taken_again (again a.dispatch_decision_id id) (again a.canonical_input_digest input)
          (again a.canonical_decision_digest content) (again a.idempotency_identity identity) kept
          fixed (reasons ∙ ap sorted_texts (ok-injective (sym read ∙ kept)) ∙ fixed)
          (rw (references) (sorted_references_again a.readiness_references))
