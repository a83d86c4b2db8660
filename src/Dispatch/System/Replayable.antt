-- ===== src/Dispatch/System/Replayable.antt =====
-- Every stored decision is reproduced from the evidence.
use edgeiq.Base.{
  String, ◌≡◌, refl, true, List, [], ◌∷◌, ok, arith, In, inl, inr, Option-cases, ==-refl, text_eq,
  ap, subst,
}
use edgeiq.Platform.{Bytes, Interpreter, InterpreterLaws}
use edgeiq.Dispatch.Domain.{
  approved, DispatchRequest, DispatchDecision, DispatchDecisionRecord, stream_key,
  dispatch_decision_eq,
}
use edgeiq.Dispatch.Evidence.{nonempty}
use edgeiq.Dispatch.Repository.{stream, bytes_eq}
use edgeiq.Dispatch.Resolve.{Sources, resolve}
use edgeiq.Dispatch.Resolve.Verified.{Verified, resolve-Verified}
use edgeiq.Dispatch.Policy.{VerifiedDispatchEvidence, RegisteredDispatchPolicy}
use edgeiq.Dispatch.Policy.Outcomes.{Offerable, evaluate-Offerable}
use edgeiq.Dispatch.Serialization.Build.{build_dispatch_decision}
use edgeiq.Dispatch.Service.{get, rebuild, reconstruct, counts_from}
use edgeiq.Dispatch.System.{System, starting, Reach}
use edgeiq.Dispatch.System.Invariant.{Prepared, starting-IsSound, Reach-IsSound}

nonempty_of_In :
    (x : DispatchDecisionRecord) (xs : List DispatchDecisionRecord) → In x xs → nonempty xs ≡ true
nonempty_of_In x [] i = elim i [ ]
nonempty_of_In x (y ∷ ys) i = refl

module _ ⦃p : Interpreter⦄ where
  Prepared-rebuild :
      (sources : Sources) (x : DispatchDecisionRecord) (xs : List DispatchDecisionRecord)
      → Prepared sources x
      → In x xs
      → counts_from 1 xs ≡ true
      → rebuild sources x xs ≡ ok x.decision
  unfolding rebuild
  Prepared-rebuild sources x xs ready i counted =
      rw
        (
          nonempty_of_In x xs i,
          counted,
          ready.built.verified,
          ready.resolved,
          ready.built.input_made,
          ==-refl x.canonical_input_content,
          ready.built.again,
          ==-refl x.canonical_input_content,
          ==-refl x.canonical_decision_content,
          ==-refl x.decision,
          ready.built.settled,
        )
        refl

  -- In every state that any interleaving of threads reaches from an empty repository, a decision that `get`
  -- returns is the one that `reconstruct` builds again from the retained evidence.
  pub reconstruct_reproduces :
      InterpreterLaws p
      → (sources : Sources) {s : System} → Reach (starting sources) s
      → (id organization : String) (decision : DispatchDecision)
      → get s.repository id organization ≡ ok decision
      → reconstruct s.sources s.repository id organization ≡ ok decision
  unfolding get reconstruct
  reconstruct_reproduces laws sources {s} reached id organization decision h =
      let sound = Reach-IsSound laws (starting-IsSound laws sources) reached in
      elim (Option-cases (s.repository.by_id id)) [
        | inl missing ↦ cc (rw missing at h)
        | inr (x, held) ↦
            let place = sound.by_id id x held in
            let (own, ready) = sound.listed (stream_key x.request) x place in
            let rebuilt =
              Prepared-rebuild s.sources x (stream s.repository (stream_key x.request)) ready place
                (sound.numbered (stream_key x.request)) in
            ground (arith, held, rebuilt)
      ]

  -- The decision is what `build_dispatch_decision` makes of the evidence, under some idempotency identity,
  -- at the decision's version and recorded time.
  abbrev pub MadeOf :
      VerifiedDispatchEvidence → RegisteredDispatchPolicy → DispatchDecision → Type 0
  MadeOf e policy d =
      (identity : String) × (input : Bytes) × (content : Bytes) × (build_dispatch_decision e policy
          d.stream_version identity d.recorded_at
        ≡ ok (d, input, content))

  -- In every state that any interleaving of threads reaches from an empty repository, an approved decision
  -- that `get` returns for an organization was made for a request of that organization: the sources still
  -- resolve the request to verified evidence that may be offered at the request's time, the lease's expiry
  -- instant included, and `build_dispatch_decision` makes the decision of that evidence again.
  pub approved_supported :
      InterpreterLaws p
      → (sources : Sources) {s : System} → Reach (starting sources) s
      → (id organization : String) (decision : DispatchDecision)
      → get s.repository id organization ≡ ok decision
      → decision.outcome ≡ approved
      → (request : DispatchRequest) × (e : VerifiedDispatchEvidence)
        × (policy : RegisteredDispatchPolicy) × (resolve s.sources request ≡ ok (e, policy))
        × (request.organization_id ≡ organization)
        × Verified request e
        × Offerable e
        × MadeOf e policy decision
  unfolding get
  approved_supported laws sources {s} reached id organization decision h k =
      let sound = Reach-IsSound laws (starting-IsSound laws sources) reached in
      elim (Option-cases (s.repository.by_id id)) [
        | inl missing ↦ cc (rw missing at h)
        | inr (x, held) ↦
            let (own, ready) = sound.listed (stream_key x.request) x (sound.by_id id x held) in
            let verified = resolve-Verified s.sources x.request ready.resolved in
            let same : x.decision ≡ decision = ground (arith, held) in
            let owned : x.decision.organization_id ≡ organization = ground (arith, held) in
            (
              x.request,
              ready.evidence,
              ready.policy,
              ready.resolved,
              cc (
                ready.built.organization,
                owned,
                ap (λ (r : DispatchRequest). r.organization_id) verified.same_request,
              ),
              verified,
              (evaluate-Offerable ready.evidence).0
                  (cc (ready.built.outcome, ap (λ (d : DispatchDecision). d.outcome) same)),
              subst (MadeOf ready.evidence ready.policy) same (
                x.idempotency_identity, x.canonical_input_content, x.canonical_decision_content,
                ready.built.again,
              ),
            )
      ]
