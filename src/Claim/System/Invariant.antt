-- ===== src/Claim/System/Invariant.antt =====
-- What holds of the shared state between any two steps of any threads.
use edgeiq.Base.{
  ◌≡◌, ap, sym, ◌∙◌, subst, inl, inr, List, [], ◌∷◌, ◌++◌, ok, length, IsPrefix, IsPrefix-refl,
  IsPrefix-trans, IsPrefix-length, In, text_eq, text_eq, All, All-In, empty_dict,
}
use edgeiq.Platform.{Interpreter, InterpreterLaws}
use edgeiq.Platform.Evidence.Immutable.{Extends-refl, retain-Extends}
use edgeiq.Dispatch.Domain.{dispatch_record_eq}
use edgeiq.Claim.Domain.{
  WorkClaimEvent, LineageKey, LineageKey_discrete, lineage_key, lineage_key_eq, invalid,
}
use edgeiq.Claim.Evidence.{claimant_source, dispatch_source, claimant_eq}
use edgeiq.Claim.Repository.{RepositoryState, idempotency_key_eq, stream, publish, append}
use edgeiq.Claim.Repository.Growth.{
  Stored, append-cases, Grows, Grows-refl, append-Grows, stream-publish_self, stream-publish_ne,
}
use edgeiq.Claim.Repository.Indexes.{IsIndexed, empty-IsIndexed, append-IsIndexed}
use edgeiq.Claim.Replay.{Sources}
use edgeiq.Claim.Replay.Stable.{SourcesExtend, SourcesExtend-refl}
use edgeiq.Claim.Replay.Prepared.{prepare-Parts, Replays, Replays-nil, Replays-Extends}
use edgeiq.Claim.Replay.Extension.{Replays-prepared}
use edgeiq.Claim.System.{
  Pending, System, starting, Step, retain_dispatch, retain_claimant, begin, finish, Reach, stay,
  next,
}

module _ ⦃p : Interpreter⦄ where
  -- A prepared record still extends what its thread has seen, which is where its stream begins.
  pub record IsReady (sources : Sources) (r : RepositoryState) (t : Pending) : Type 0 where
    pub seen_prefix : IsPrefix t.seen (stream r (lineage_key t.new.request))
    pub replays : Replays sources (lineage_key t.new.request) (t.seen ++ t.new ∷ [])
    pub expected : t.new.request.expected_lineage_version ≡ length t.seen

  pub record IsSound (s : System) : Type 0 where
    pub streams : (k : LineageKey) → Replays s.sources k (stream s.repository k)
    pub indexed : IsIndexed s.repository
    pub pending : All (IsReady s.sources s.repository) s.pending

  pub starting-IsSound : (sources : Sources) → IsSound (starting sources)
  unfolding empty_dict
  starting-IsSound sources = record {
    streams = λ k. Replays-nil sources k;
    indexed = empty-IsIndexed;
    pending = tt;
  }

module _ ⦃p : Interpreter⦄ (laws : InterpreterLaws p) where
  IsReady-Grows :
      {a b : Sources} {r r' : RepositoryState}
      → SourcesExtend a b
      → Grows r r'
      → (ts : List Pending) → All (IsReady a r) ts
      → All (IsReady b r') ts
  IsReady-Grows x g [] h = tt
  IsReady-Grows x g (t ∷ ts) h = (
    record {
      seen_prefix = IsPrefix-trans h.0.seen_prefix (g.streams (lineage_key t.new.request));
      replays = Replays-Extends _ _ x h.0.replays;
      expected = h.0.expected;
    },
    IsReady-Grows x g ts h.1,
  )

  extended-IsSound :
      (s : System) (sources : Sources)
      → SourcesExtend s.sources sources
      → IsSound s
      → IsSound (record s { sources = sources })
  extended-IsSound s sources x h = record {
    streams = λ k. Replays-Extends k (stream s.repository k) x (h.streams k);
    indexed = h.indexed;
    pending = IsReady-Grows x (Grows-refl s.repository) s.pending h.pending;
  }

  -- The stream that a stored record extends is the history that its thread has seen.
  Stored-Replays :
      (sources : Sources) (r : RepositoryState) (t : Pending) {r' : RepositoryState}
      {event : WorkClaimEvent}
      → IsReady sources r t
      → Stored r t.new t.new.request.expected_lineage_version r' event
      → Replays sources
          (lineage_key t.new.request)
          (stream (publish r t.new) (lineage_key t.new.request))
  Stored-Replays sources r t ready stored =
      let same = IsPrefix-length ready.seen_prefix (sym ready.expected ∙ stored.counted) in
      rw (stream-publish_self r t.new, ← same) ready.replays

  Stored-streams :
      (s : System) (t : Pending) {r' : RepositoryState} {event : WorkClaimEvent}
      → IsSound s
      → IsReady s.sources s.repository t
      → Stored s.repository t.new t.new.request.expected_lineage_version r' event
      → (k : LineageKey) → Replays s.sources k (stream (publish s.repository t.new) k)
  Stored-streams s t h ready stored k = elim (LineageKey_discrete (lineage_key t.new.request) k) [
    | yes q ↦
        subst (λ j. Replays s.sources j (stream (publish s.repository t.new) j)) q
          (Stored-Replays s.sources s.repository t ready stored)
    | no n ↦ rw (stream-publish_ne s.repository t.new k n) (h.streams k)
  ]

  finish-IsSound :
      (s : System) (t : Pending) (r' : RepositoryState) (event : WorkClaimEvent)
      → In t s.pending
      → append s.repository t.new t.new.request.expected_lineage_version ≡ ok (r', event)
      → IsSound s
      → IsSound (record s { repository = r' })
  finish-IsSound s t r' event i a h =
      let ready = All-In (IsReady s.sources s.repository) i h.pending in
      record {
        streams = λ k.
            elim (append-cases s.repository t.new t.new.request.expected_lineage_version a) [
              | inl e ↦ rw e.unchanged (h.streams k)
              | inr stored ↦ rw stored.published (Stored-streams s t h ready stored k)
            ];
        indexed =
            append-IsIndexed s.repository t.new t.new.request.expected_lineage_version a h.indexed;
        pending =
            IsReady-Grows (SourcesExtend-refl s.sources)
              (append-Grows s.repository t.new t.new.request.expected_lineage_version a) s.pending
              h.pending;
      }

  -- Every step of every thread keeps the invariant.
  pub Step-IsSound : {s s' : System} → Step s s' → IsSound s → IsSound s'
  Step-IsSound {s} (retain_dispatch value items kept) h =
      extended-IsSound s _
        (record {
          dispatches = retain-Extends dispatch_source invalid s.sources.dispatches value kept;
          claimants = Extends-refl s.sources.claimants;
        })
        h
  Step-IsSound {s} (retain_claimant value items kept) h =
      extended-IsSound s _
        (record {
          dispatches = Extends-refl s.sources.dispatches;
          claimants = retain-Extends claimant_source invalid s.sources.claimants value kept;
        })
        h
  Step-IsSound {s} (begin request e identity now new resolved identified prepared) h =
      let history = stream s.repository (lineage_key request) in
      let parts = prepare-Parts s.sources history request e identity now prepared in
      let on_key = ap lineage_key parts.same_request in
      record {
        streams = h.streams;
        indexed = h.indexed;
        pending = (
          record {
            seen_prefix = rw on_key (IsPrefix-refl history);
            replays = rw on_key (
                Replays-prepared laws s.sources history request e identity now new parts resolved
                  (h.streams (lineage_key request)));
            expected = parts.expected;
          },
          h.pending,
        );
      }
  Step-IsSound {s} (finish t repository event i a) h = finish-IsSound s t repository event i a h

  pub Reach-IsSound : {s t : System} → IsSound s → Reach s t → IsSound t
  Reach-IsSound h stay = h
  Reach-IsSound h (next r st) = Step-IsSound st (Reach-IsSound h r)
