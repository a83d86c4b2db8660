-- ===== src/Claim/Service/Retry.antt =====
-- Idempotency: a request that `evaluate` has answered is answered again with the same event.
use edgeiq.Base.{
  ℕ, ◌+◌, String, ◌≡◌, refl, ap, sym, transport, ◌∙◌, inl, inr, Option, none, some, List, ok, arith,
  >>=-eq-ok, ok-injective, put_self, Option-cases,
}
use edgeiq.Platform.{Bytes, DateTime, Interpreter, InterpreterLaws}
use edgeiq.Claim.Domain.{
  WorkClaimRequest, WorkClaimEvent, WorkClaimRecord, existing_equivalent, lineage_key,
  WorkClaimEvaluationResult, bytes_eq,
}
use edgeiq.Claim.Serialization.{canonical_input_content, work_claim_idempotency_identity}
use edgeiq.Claim.Serialization.Build.Built.{build-Built}
use edgeiq.Claim.Repository.{
  RepositoryState, stream, idempotent, append, idempotency_key_of, idempotency_key_eq, publish,
}
use edgeiq.Claim.Repository.Growth.{append-cases, Grows}
use edgeiq.Claim.Replay.{Sources, Resolved, resolve, prepare}
use edgeiq.Claim.Replay.Stable.{SourcesExtend, resolve-Extends}
use edgeiq.Claim.Replay.Prepared.{prepare-Parts}
use edgeiq.Claim.Service.{evaluate_through, evaluate_new, evaluation}

-- The repository remembers an answer to `request`: a record with its identity and input.
pub record Remembers (r : RepositoryState) (request : WorkClaimRequest) (identity : String)
    (input : Bytes) (event : WorkClaimEvent) : Type 0 where
  pub answer : WorkClaimRecord
  pub held : r.idempotency (request.organization_id, lineage_key request, identity) ≡ some answer
  pub same_input : answer.canonical_input_content ≡ input
  pub same_event : event ≡ answer.event

Remembers-Grows :
    {r r' : RepositoryState} {request : WorkClaimRequest} {identity : String} {input : Bytes}
    {event : WorkClaimEvent}
    → Grows r r'
    → Remembers r request identity input event
    → Remembers r' request identity input event
Remembers-Grows g m = record {
  answer = m.answer;
  held = g.idempotency.kept _ m.answer m.held;
  same_input = m.same_input;
  same_event = m.same_event;
}

relabel :
    {r r' : RepositoryState} {q q' : WorkClaimRequest} {i i' : String} {c c' : Bytes}
    {ev ev' : WorkClaimEvent}
    → r ≡ r'
    → q ≡ q'
    → i ≡ i'
    → c ≡ c'
    → ev ≡ ev'
    → Remembers r q i c ev
    → Remembers r' q' i' c' ev'
relabel a b c d e m = transport (λ j. Remembers (a j) (b j) (c j) (d j) (e j)) m

idempotent-Remembers :
    (r : RepositoryState) (request : WorkClaimRequest) (identity : String) (input : Bytes)
    {event : WorkClaimEvent}
    → idempotent r request.organization_id (lineage_key request) identity input ≡ ok (some event)
    → Remembers r request identity input event
unfolding idempotent
idempotent-Remembers r request identity input h =
    elim (Option-cases (r.idempotency (request.organization_id, lineage_key request, identity))) [
      | inl missing ↦ cc (rw missing at h)
      | inr (x, held) ↦ record {
        answer = x;
        held = held;
        same_input = ground arith;
        same_event = ground arith;
      }
    ]

append-Remembers :
    (r : RepositoryState) (new : WorkClaimRecord) (version : ℕ) {r' : RepositoryState}
    {event : WorkClaimEvent}
    → append r new version ≡ ok (r', event)
    → Remembers r' new.request new.idempotency_identity new.canonical_input_content event
unfolding publish
append-Remembers r new version h = elim (append-cases r new version h) [
  | inl e ↦ record {
    answer = e.prior;
    held = rw e.unchanged e.held;
    same_input = e.same_content;
    same_event = e.returned;
  }
  | inr s ↦ record {
    answer = new;
    held = rw s.published (put_self r.idempotency (idempotency_key_of new) new);
    same_input = refl;
    same_event = s.returned;
  }
]

module _ ⦃p : Interpreter⦄ (laws : InterpreterLaws p) (request : WorkClaimRequest) where
  prepared_input :
      (sources : Sources) (history : List WorkClaimRecord) (e : Resolved) (identity : String)
      (now : DateTime) {input : Bytes} {new : WorkClaimRecord}
      → prepare sources history request e identity now ≡ ok new
      → canonical_input_content request e.dispatch e.claimant e.policy ≡ ok input
      → (new.request ≡ request)
        × (new.idempotency_identity ≡ identity)
        × (new.canonical_input_content ≡ input)
  prepared_input sources history e identity now {input} {new} h made =
      let parts = prepare-Parts sources history request e identity now h in
      let b =
        build-Built new.request e.dispatch e.claimant e.policy parts.decision
          (new.request.expected_lineage_version + 1) new.idempotency_identity now new.event
          new.canonical_input_content new.canonical_event_content parts.built laws in
      (
        parts.same_request,
        parts.same_identity,
        ok-injective (sym (rw parts.same_request at b.input_made) ∙ made),
      )

  -- An evaluation that returned is remembered by the repository that it left.
  answered :
      (sources : Sources) (at_read at_append : RepositoryState) (e : Resolved) (identity : String)
      (now : DateTime) (input : Bytes) {r' : RepositoryState} {result : WorkClaimEvaluationResult}
      → canonical_input_content request e.dispatch e.claimant e.policy ≡ ok input
      → evaluate_new sources at_read at_append request e identity now none ≡ ok (r', result)
      → Remembers r' request identity input result.event
  answered sources at_read at_append e identity now input made h =
      let (new, prepared, rest) =
        >>=-eq-ok (prepare sources (stream at_read (lineage_key request)) request e identity now) _
          h in
      let ((r, accepted), appended, rest') =
        >>=-eq-ok (append at_append new request.expected_lineage_version) _ rest in
      let (same_request, same_identity, same_input) =
        prepared_input sources (stream at_read (lineage_key request)) e identity now prepared
          made in
      let left = ok-injective rest' in
      relabel (ap (λ (t : RepositoryState × WorkClaimEvaluationResult). t.0) left) same_request
        same_identity same_input
        (ap (λ (t : RepositoryState × WorkClaimEvaluationResult). t.1.event) left)
        (append-Remembers at_append new request.expected_lineage_version appended)

  -- A remembered answer is what `evaluate` returns, and it changes nothing.
  recalled :
      (sources : Sources) (at_lookup at_read at_append : RepositoryState) (e : Resolved)
      (identity : String) (now : DateTime) (input : Bytes) {event : WorkClaimEvent}
      → resolve sources request ≡ ok e
      → work_claim_idempotency_identity request ≡ ok identity
      → canonical_input_content request e.dispatch e.claimant e.policy ≡ ok input
      → Remembers at_lookup request identity input event
      → evaluate_through sources at_lookup at_read at_append request now
        ≡ ok (at_append, evaluation existing_equivalent event)
  unfolding evaluate_through idempotent
  recalled sources at_lookup at_read at_append e identity now input a b c m =
      ground (arith, m.held, m.same_input, m.same_event)

  -- What an `evaluate` that returned resolved, and that its repository remembers the answer.
  record Answered (sources : Sources) (repository : RepositoryState) (event : WorkClaimEvent)
      : Type 0 where
    evidence : Resolved
    identity : String
    input : Bytes
    resolved : resolve sources request ≡ ok evidence
    identified : work_claim_idempotency_identity request ≡ ok identity
    made :
        canonical_input_content request evidence.dispatch evidence.claimant evidence.policy
        ≡ ok input
    remembers : Remembers repository request identity input event

  evaluate_new-Remembers :
      (sources : Sources) (at_lookup at_read at_append : RepositoryState) (e : Resolved)
      (identity : String) (now : DateTime) (input : Bytes) (prior : Option WorkClaimEvent)
      {repository : RepositoryState} {result : WorkClaimEvaluationResult}
      → canonical_input_content request e.dispatch e.claimant e.policy ≡ ok input
      → idempotent at_lookup request.organization_id (lineage_key request) identity input ≡ ok prior
      → Grows at_lookup at_append
      → evaluate_new sources at_read at_append request e identity now prior
        ≡ ok (repository, result)
      → Remembers repository request identity input result.event
  evaluate_new-Remembers sources at_lookup at_read at_append e identity now input (some prior) made
        looked g h =
      let left = ok-injective h in
      relabel (ap (λ (t : RepositoryState × WorkClaimEvaluationResult). t.0) left) refl refl refl
        (ap (λ (t : RepositoryState × WorkClaimEvaluationResult). t.1.event) left)
        (Remembers-Grows g (idempotent-Remembers at_lookup request identity input looked))
  evaluate_new-Remembers sources at_lookup at_read at_append e identity now input none made looked g
        h =
      answered sources at_read at_append e identity now input made h

  evaluate_through-Answered :
      (sources : Sources) (at_lookup at_read at_append : RepositoryState) (now : DateTime)
      {repository : RepositoryState} {result : WorkClaimEvaluationResult}
      → Grows at_lookup at_append
      → evaluate_through sources at_lookup at_read at_append request now ≡ ok (repository, result)
      → Answered sources repository result.event
  unfolding evaluate_through
  evaluate_through-Answered sources at_lookup at_read at_append now g h =
      let (e, resolved, h1) = >>=-eq-ok (resolve sources request) _ h in
      let (identity, identified, h2) = >>=-eq-ok (work_claim_idempotency_identity request) _ h1 in
      let (input, made, h3) =
        >>=-eq-ok (canonical_input_content request e.dispatch e.claimant e.policy) _ h2 in
      let (prior, looked, h4) =
        >>=-eq-ok
          (idempotent at_lookup request.organization_id (lineage_key request) identity input) _
          h3 in
      record {
        evidence = e;
        identity = identity;
        input = input;
        resolved = resolved;
        identified = identified;
        made = made;
        remembers =
            evaluate_new-Remembers sources at_lookup at_read at_append e identity now input prior
              made looked g h4;
      }

  -- Once `evaluate` has returned for a request, it returns the same event for it ever after, as an
  -- existing equivalent and without a change: whatever evidence is retained and whatever records are
  -- appended in the meantime, and whatever its own calls of the repository meet.
  pub evaluate_retry :
      (sources later : Sources) (at_lookup at_read at_append repository : RepositoryState)
      (now : DateTime) (result : WorkClaimEvaluationResult)
      → evaluate_through sources at_lookup at_read at_append request now ≡ ok (repository, result)
      → Grows at_lookup at_append
      → SourcesExtend sources later
      → (lookup' read' append' : RepositoryState) (now' : DateTime) → Grows repository lookup'
      → evaluate_through later lookup' read' append' request now'
        ≡ ok (append', evaluation existing_equivalent result.event)
  evaluate_retry sources later at_lookup at_read at_append repository now result h g x lookup' read'
        append' now' g' =
      let a = evaluate_through-Answered sources at_lookup at_read at_append now g h in
      recalled later lookup' read' append' a.evidence a.identity now' a.input
        (resolve-Extends sources later request x a.resolved) a.identified a.made
        (Remembers-Grows g' a.remembers)
