-- ===== src/Claim/Service/Answers.antt =====
-- What `evaluate` answers is what `get` then reads.
use edgeiq.Base.{
  String, ◌≡◌, refl, sym, ap, ◌∙◌, subst, inl, inr, none, some, ok, arith, text_eq, >>=-eq-ok,
  ok-injective, In, In-prefix, In-append-last, ℕ, Option-cases,
}
use edgeiq.Platform.{Bytes, DateTime, Interpreter}
use edgeiq.Claim.Domain.{
  WorkClaimRequest, WorkClaimEvent, WorkClaimRecord, WorkClaimEvaluationResult, LineageKey,
  lineage_key, bytes_eq,
}
use edgeiq.Claim.Serialization.{canonical_input_content, work_claim_idempotency_identity}
use edgeiq.Claim.Repository.{RepositoryState, IdempotencyKey, stream, idempotent, append}
use edgeiq.Claim.Repository.Growth.{Grows, append-cases, append-Grows, stream-publish_self}
use edgeiq.Claim.Repository.Indexes.{IsIndexed, append-IsIndexed}
use edgeiq.Claim.Replay.{Sources, Resolved, resolve, prepare}
use edgeiq.Claim.Replay.Prepared.{prepare-Parts}
use edgeiq.Claim.Service.{get, evaluate_through, evaluate_new}

-- The event is that of a record of the lineage, and `get` reads it under its identity and scope.
pub record Readable (r : RepositoryState) (k : LineageKey) (event : WorkClaimEvent) : Type 0 where
  pub found : WorkClaimRecord
  pub listed : In found (stream r k)
  pub same_event : found.event ≡ event
  pub read : get r event.event_id event.organization_id event.workload_context_id ≡ ok event

listed-Readable :
    {r : RepositoryState}
    → IsIndexed r
    → (k : LineageKey) (x : WorkClaimRecord) → In x (stream r k)
    → Readable r k x.event
unfolding get
listed-Readable {r} h k x i =
    let held = h.listed_by_id k x i in
    record { found = x; listed = i; same_event = refl; read = ground (arith, held) }

-- A record that the index of an earlier repository holds is in its lineage's stream later on.
remembered-Readable :
    {a b : RepositoryState}
    → IsIndexed a
    → IsIndexed b
    → Grows a b
    → (organization identity : String) (k : LineageKey) (x : WorkClaimRecord)
    → a.idempotency (organization, k, identity) ≡ some x
    → Readable b k x.event
remembered-Readable {a} {b} ia ib g organization identity k x held =
    let (same, i) = ia.idempotency_listed (organization, k, identity) x held in
    let own = ap (λ (j : IdempotencyKey). j.1) same in
    listed-Readable ib k x (In-prefix (g.streams k) (subst (λ j. In x (stream a j)) own i))

found_prior :
    (r : RepositoryState) (organization : String) (k : LineageKey) (identity : String)
    (content : Bytes) {prior : WorkClaimEvent}
    → idempotent r organization k identity content ≡ ok (some prior)
    → (x : WorkClaimRecord) × (r.idempotency (organization, k, identity) ≡ some x)
      × (x.event ≡ prior)
unfolding idempotent
found_prior r organization k identity content h =
    elim (Option-cases (r.idempotency (organization, k, identity))) [
      | inl missing ↦ cc (rw missing at h)
      | inr (x, held) ↦ (x, held, ground (arith, held))
    ]

appended-Readable :
    (r : RepositoryState) (new : WorkClaimRecord) (version : ℕ) {r' : RepositoryState}
    {event : WorkClaimEvent}
    → IsIndexed r
    → append r new version ≡ ok (r', event)
    → Readable r' (lineage_key new.request) event
appended-Readable r new version {r'} {event} h a =
    let after = append-IsIndexed r new version a h in
    elim (append-cases r new version a) [
      | inl e ↦ subst (Readable r' (lineage_key new.request)) (sym e.returned) (
          remembered-Readable h after (append-Grows r new version a) new.request.organization_id
            new.idempotency_identity (lineage_key new.request) e.prior e.held)
      | inr s ↦
          let place : In new (stream r' (lineage_key new.request)) =
            rw (s.published, stream-publish_self r new) (In-append-last _ new) in
          subst (Readable r' (lineage_key new.request)) (sym s.returned)
            (listed-Readable after (lineage_key new.request) new place)
    ]

module _ ⦃p : Interpreter⦄ (sources : Sources) (at_lookup at_read at_append : RepositoryState)
    (request : WorkClaimRequest) (now : DateTime) (earlier : IsIndexed at_lookup)
    (later : IsIndexed at_append) (g : Grows at_lookup at_append) where
  evaluate_new-Readable :
      (e : Resolved) (identity : String) {r' : RepositoryState} {result : WorkClaimEvaluationResult}
      → evaluate_new sources at_read at_append request e identity now none ≡ ok (r', result)
      → Readable r' (lineage_key request) result.event
  evaluate_new-Readable e identity {r'} {result} h =
      let history = stream at_read (lineage_key request) in
      let (new, prepared, rest) = >>=-eq-ok (prepare sources history request e identity now) _ h in
      let ((r, accepted), appended, made) =
        >>=-eq-ok (append at_append new request.expected_lineage_version) _ rest in
      let same = (prepare-Parts sources history request e identity now prepared).same_request in
      let answer =
        appended-Readable at_append new request.expected_lineage_version later appended in
      let at_request =
        subst (λ (q : WorkClaimRequest). Readable r (lineage_key q) accepted) same answer in
      subst
        (λ (t : RepositoryState × WorkClaimEvaluationResult).
          Readable t.0 (lineage_key request) t.1.event)
        (ok-injective made) at_request

  -- An `evaluate` that returns, whose lookup meets an earlier and whose `append` a later state of one
  -- repository, both with indexes that agree with their streams, answers with the event of a record of the
  -- request's lineage in the repository that it leaves; `get` reads that event there, in its own scope.
  pub evaluate_through-get :
      {r' : RepositoryState} {result : WorkClaimEvaluationResult}
      → evaluate_through sources at_lookup at_read at_append request now ≡ ok (r', result)
      → Readable r' (lineage_key request) result.event
  unfolding evaluate_through
  evaluate_through-get {r'} {result} h =
      let (e, resolved, h1) = >>=-eq-ok (resolve sources request) _ h in
      let (identity, identified, h2) = >>=-eq-ok (work_claim_idempotency_identity request) _ h1 in
      let (content, canonical, h3) =
        >>=-eq-ok (canonical_input_content request e.dispatch e.claimant e.policy) _ h2 in
      let key = lineage_key request in
      let (prior, looked, h4) =
        >>=-eq-ok (idempotent at_lookup request.organization_id key identity content) _ h3 in
      elim (Option-cases prior) [
        | inl new ↦ evaluate_new-Readable e identity (rw new at h4)
        | inr (event, known) ↦
            let (x, held, same) =
              found_prior at_lookup request.organization_id key identity content
                (looked ∙ ap ok known) in
            let read =
              remembered-Readable earlier later g request.organization_id identity key x held in
            let at_event = subst (λ (w : WorkClaimEvent). Readable at_append key w) same read in
            subst (λ (t : RepositoryState × WorkClaimEvaluationResult). Readable t.0 key t.1.event)
              (ok-injective (rw known at h4)) at_event
      ]
