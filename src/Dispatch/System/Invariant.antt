-- ===== src/Dispatch/System/Invariant.antt =====
-- What holds in every state that any interleaving reaches.
use edgeiq.Base.{
  ℕ, ◌+◌, String, ◌≡◌, refl, sym, subst, true, inl, inr, some, List, [], ◌∷◌, ◌++◌, ok, >>=-eq-ok,
  ok-injective, arith, In, length, nat_eq, empty_dict,
}
use edgeiq.Platform.{DateTime, Interpreter, InterpreterLaws}
use edgeiq.Platform.Evidence.Immutable.{Extends-refl, retain-Extends}
use edgeiq.Dispatch.Domain.{
  DispatchRequest, DispatchDecision, DispatchDecisionRecord, StreamKey, StreamKey_discrete,
  stream_key, invalid,
}
use edgeiq.Dispatch.Evidence.{
  plan_source, selection_source, readiness_source, lease_source, plan_eq, selection_eq,
  readiness_eq, lease_eq,
}
use edgeiq.Dispatch.Policy.{VerifiedDispatchEvidence, RegisteredDispatchPolicy}
use edgeiq.Dispatch.Repository.{RepositoryState, stream, publish}
use edgeiq.Dispatch.Repository.Growth.{
  Appended, append-Appended, stream-publish_self, stream-publish_ne, published_cases, published_new,
  published_old, by_id-publish-cases,
}
use edgeiq.Dispatch.Resolve.{Sources, resolve}
use edgeiq.Dispatch.Resolve.Stable.{SourcesExtend, resolve-Extends}
use edgeiq.Dispatch.Serialization.Build.{dispatch_idempotency_identity, build_dispatch_decision}
use edgeiq.Dispatch.Serialization.Build.Built.{Built, decision-Built}
use edgeiq.Dispatch.Service.{prepare, counts_from}
use edgeiq.Dispatch.System.{System, Pending, starting, Step, Reach, stay, next}

module _ ⦃p : Interpreter⦄ where
  -- The record was built from evidence that the sources still hold.
  pub record Prepared (sources : Sources) (x : DispatchDecisionRecord) : Type 0 where
    pub evidence : VerifiedDispatchEvidence
    pub policy : RegisteredDispatchPolicy
    pub resolved : resolve sources x.request ≡ ok (evidence, policy)
    pub built :
        Built evidence policy x.decision.stream_version x.idempotency_identity x.decision
          x.canonical_input_content x.canonical_decision_content

  pub prepare-Prepared :
      InterpreterLaws p
      → (sources : Sources) (request : DispatchRequest) (version : ℕ) (key : String)
        (now : DateTime) {new : DispatchDecisionRecord}
      → prepare sources request version key now ≡ ok new
      → Prepared sources new
  unfolding prepare
  prepare-Prepared laws sources request version key now h =
      let ((e, policy), resolved, h1) = >>=-eq-ok (resolve sources request) _ h in
      let (identity, named, h2) = >>=-eq-ok (dispatch_idempotency_identity request key) _ h1 in
      let ((d, input, content), made, h3) =
        >>=-eq-ok (build_dispatch_decision e policy (version + 1) identity now) _ h2 in
      let built = decision-Built e policy (version + 1) identity d input content laws now made in
      subst (Prepared sources) (ok-injective h3) (record {
        evidence = e;
        policy = policy;
        resolved = resolved;
        built =
            subst (λ v. Built e policy v identity d input content) (sym built.version_kept) built;
      })

  Prepared-Extends :
      (a b : Sources) (x : DispatchDecisionRecord) → SourcesExtend a b → Prepared a x → Prepared b x
  Prepared-Extends a b x grown h = record {
    evidence = h.evidence;
    policy = h.policy;
    resolved = resolve-Extends a b x.request grown h.evidence h.policy h.resolved;
    built = h.built;
  }

  pub record IsSound (s : System) : Type 0 where
    pub pending : (t : Pending) → In t s.pending → Prepared s.sources t.new
    pub listed :
        (k : StreamKey) (x : DispatchDecisionRecord)
        → In x (stream s.repository k)
        → (stream_key x.request ≡ k) × Prepared s.sources x
    pub by_id :
        (id : String) (x : DispatchDecisionRecord)
        → s.repository.by_id id ≡ some x
        → In x (stream s.repository (stream_key x.request))
    pub numbered : (k : StreamKey) → counts_from 1 (stream s.repository k) ≡ true

counts_from-append :
    (n : ℕ) (xs : List DispatchDecisionRecord) (x : DispatchDecisionRecord)
    → counts_from n xs ≡ true
    → x.decision.stream_version ≡ n + length xs
    → counts_from n (xs ++ x ∷ []) ≡ true
counts_from-append n [] x h e = ground arith
counts_from-append n (y ∷ ys) x h e =
    let later = counts_from-append (n + 1) ys x (ground arith) (omega arith) in
    ground (arith, later)

module _ ⦃p : Interpreter⦄ (s : System) (sound : IsSound s) where
  grown_sources :
      (sources : Sources)
      → SourcesExtend s.sources sources
      → IsSound (record s { sources = sources })
  grown_sources sources grown = record {
    pending = λ t i. Prepared-Extends s.sources sources t.new grown (sound.pending t i);
    listed = λ k x i.
        let (own, ready) = sound.listed k x i in
        (own, Prepared-Extends s.sources sources x grown ready);
    by_id = sound.by_id;
    numbered = sound.numbered;
  }

  begun :
      (new : DispatchDecisionRecord) (version : ℕ)
      → Prepared s.sources new
      → (t : Pending) → In t (record { new = new; expected_version = version } ∷ s.pending)
      → Prepared s.sources t.new
  begun new version ready t (In.here e) =
      subst (λ (t : Pending). Prepared s.sources t.new) (sym e) ready
  begun new version ready t (In.there i) = sound.pending t i

  module _ (new : DispatchDecisionRecord) (ready : Prepared s.sources new) where
    published_listed :
        (k : StreamKey) (x : DispatchDecisionRecord)
        → In x (stream (publish s.repository new) k)
        → (stream_key x.request ≡ k) × Prepared s.sources x
    published_listed k x i = elim (published_cases s.repository new k x i) [
      | inl old ↦ sound.listed k x old
      | inr (same, own) ↦
          subst (λ (z : DispatchDecisionRecord). (stream_key z.request ≡ k) × Prepared s.sources z)
            (sym same) (own, ready)
    ]

    published_by_id :
        (id : String) (x : DispatchDecisionRecord)
        → (publish s.repository new).by_id id ≡ some x
        → In x (stream (publish s.repository new) (stream_key x.request))
    published_by_id id x h = elim (by_id-publish-cases s.repository new id x h) [
      | inl (same, named) ↦
          subst
            (λ (z : DispatchDecisionRecord).
              In z (stream (publish s.repository new) (stream_key z.request)))
            same (published_new s.repository new)
      | inr old ↦ published_old s.repository new (stream_key x.request) x (sound.by_id id x old)
    ]

    published-counts_from :
        new.decision.stream_version ≡ length (stream s.repository (stream_key new.request)) + 1
        → (k : StreamKey) → counts_from 1 (stream (publish s.repository new) k) ≡ true
    published-counts_from e k = elim (StreamKey_discrete (stream_key new.request) k) [
      | yes q ↦
          subst (λ j. counts_from 1 (stream (publish s.repository new) j) ≡ true) q
            (rw (stream-publish_self s.repository new) (
              counts_from-append 1 _ new (sound.numbered (stream_key new.request))
                (omega (arith, e))))
      | no n ↦ rw (stream-publish_ne s.repository new k n) (sound.numbered k)
    ]

    finished :
        (version : ℕ) {repository : RepositoryState} {d : DispatchDecision}
        → Appended s.repository new version repository d
        → IsSound (record s { repository = repository })
    finished version (Appended.unchanged prior held same returned) = rw same sound
    finished version (Appended.stored unused counted versioned fresh published returned) =
        rw published (record {
          pending = sound.pending;
          listed = published_listed;
          by_id = published_by_id;
          numbered = published-counts_from (omega (arith, counted, versioned));
        })

module _ ⦃p : Interpreter⦄ (laws : InterpreterLaws p) where
  pub starting-IsSound : (sources : Sources) → IsSound (starting sources)
  unfolding empty_dict
  starting-IsSound sources = record {
    pending = λ t i. elim i [ ];
    listed = λ k x i. elim i [ ];
    by_id = λ id x h. cc;
    numbered = λ k. refl;
  }

  Step-IsSound : {s t : System} → IsSound s → Step s t → IsSound t
  Step-IsSound {s} sound (Step.retain_plan value items h) =
      grown_sources s sound (record (s.sources) { plans = items })
        (record {
          plans = retain-Extends plan_source invalid s.sources.plans value h;
          selections = Extends-refl s.sources.selections;
          readiness = Extends-refl s.sources.readiness;
          leases = Extends-refl s.sources.leases;
        })
  Step-IsSound {s} sound (Step.retain_selection value items h) =
      grown_sources s sound (record (s.sources) { selections = items })
        (record {
          plans = Extends-refl s.sources.plans;
          selections = retain-Extends selection_source invalid s.sources.selections value h;
          readiness = Extends-refl s.sources.readiness;
          leases = Extends-refl s.sources.leases;
        })
  Step-IsSound {s} sound (Step.retain_readiness value items h) =
      grown_sources s sound (record (s.sources) { readiness = items })
        (record {
          plans = Extends-refl s.sources.plans;
          selections = Extends-refl s.sources.selections;
          readiness = retain-Extends readiness_source invalid s.sources.readiness value h;
          leases = Extends-refl s.sources.leases;
        })
  Step-IsSound {s} sound (Step.retain_lease value items h) =
      grown_sources s sound (record (s.sources) { leases = items })
        (record {
          plans = Extends-refl s.sources.plans;
          selections = Extends-refl s.sources.selections;
          readiness = Extends-refl s.sources.readiness;
          leases = retain-Extends lease_source invalid s.sources.leases value h;
        })
  Step-IsSound {s} sound (Step.begin request version key now new h) = record {
    pending = begun s sound new version (prepare-Prepared laws s.sources request version key now h);
    listed = sound.listed;
    by_id = sound.by_id;
    numbered = sound.numbered;
  }
  Step-IsSound {s} sound (Step.finish t repository decision i h) =
      finished s sound t.new (sound.pending t i) t.expected_version
        (append-Appended s.repository t.new t.expected_version h)

  pub Reach-IsSound : {s t : System} → IsSound s → Reach s t → IsSound t
  Reach-IsSound sound stay = sound
  Reach-IsSound sound (next r st) = Step-IsSound (Reach-IsSound sound r) st
