-- ===== src/Claim/Service.antt =====
-- The public methods of `WorkClaimService` of app/runtime/work_claim/service.py. `now` is the clock's
-- time, at which a new event is recorded.
pub mod Retry
pub mod Answers
use edgeiq.Base.{
  String, Bool, ◌&&◌, Option, none, some, List, Result, ok, err, ◌>>=◌, ◌>>◌, guard, ◌==◌, text_eq,
  nat_eq, map, if◌then◌else◌,
}
use edgeiq.Platform.{DateTime, Interpreter}
use edgeiq.Claim.Domain.{
  WorkClaimError, not_found, reconstruction_failed, WorkClaimRequest, WorkClaimEvent,
  WorkClaimRecord, WorkClaimEvaluationOutcome, created, existing_equivalent,
  WorkClaimEvaluationResult, LineageKey, lineage_key,
}
use edgeiq.Claim.Serialization.{canonical_input_content, work_claim_idempotency_identity}
use edgeiq.Claim.Repository.{RepositoryState, stream, idempotent, append, idempotency_key_of}
use edgeiq.Claim.Replay.{Sources, Resolved, resolve, replay, prepare}

abbrev pub evaluation : WorkClaimEvaluationOutcome → WorkClaimEvent → WorkClaimEvaluationResult
evaluation outcome event = record {
  outcome = outcome;
  event = event;
  lineage_version = event.lineage_version;
}

-- `accepted is event`: an append that finds no prior record returns the event of the new one.
abbrev pub append_outcome : Option WorkClaimRecord → WorkClaimEvaluationOutcome
append_outcome none = created
append_outcome (some prior) = existing_equivalent

abbrev within : LineageKey → String → String → Bool
within (organization, workload, plan, item) organization_id workload_context_id =
    organization == organization_id && workload == workload_context_id

-- `record is None or` one of the two tests, for `get` and `reconstruct`.
abbrev scoped_record :
    Option WorkClaimRecord → String → String → Result WorkClaimError WorkClaimRecord
scoped_record none organization_id workload_context_id = err not_found
scoped_record (some r) organization_id workload_context_id =
    if r.event.organization_id == organization_id
      && r.event.workload_context_id == workload_context_id
    then ok r
    else err not_found

unfoldable pub get :
    RepositoryState → String → String → String → Result WorkClaimError WorkClaimEvent
get repository event_id organization_id workload_context_id = do
  r ← scoped_record (repository.by_id event_id) organization_id workload_context_id
  ok r.event

unfoldable pub history :
    RepositoryState → LineageKey → String → String → Result WorkClaimError (List WorkClaimEvent)
history repository key organization_id workload_context_id = do
  guard (within key organization_id workload_context_id) not_found
  ok (map (λ (r : WorkClaimRecord). r.event) (stream repository key))

unfoldable pub current :
    RepositoryState → LineageKey → String → String → Result WorkClaimError (Option WorkClaimEvent)
current repository key organization_id workload_context_id = do
  guard (within key organization_id workload_context_id) not_found
  ok (repository.current key)

abbrev rebuilt_event : Option WorkClaimEvent → Result WorkClaimError WorkClaimEvent
rebuilt_event none = err reconstruction_failed
rebuilt_event (some event) = ok event

module _ ⦃p : Interpreter⦄ where
  -- After the idempotency lookup.
  abbrev pub evaluate_new :
      Sources
      → RepositoryState
      → RepositoryState
      → WorkClaimRequest
      → Resolved
      → String
      → DateTime
      → Option WorkClaimEvent
      → Result WorkClaimError (RepositoryState × WorkClaimEvaluationResult)
  evaluate_new sources at_read at_append request e identity now (some prior) =
      ok (at_append, evaluation existing_equivalent prior)
  evaluate_new sources at_read at_append request e identity now none = do
    new ← prepare sources (stream at_read (lineage_key request)) request e identity now
    (repository', accepted) ← append at_append new request.expected_lineage_version
    ok (
      repository',
      evaluation (append_outcome (at_append.idempotency (idempotency_key_of new))) accepted,
    )

  -- `evaluate`, where its three calls of the repository meet three states of it.
  unfoldable pub evaluate_through :
      Sources
      → (at_lookup at_read at_append : RepositoryState) → WorkClaimRequest
      → DateTime
      → Result WorkClaimError (RepositoryState × WorkClaimEvaluationResult)
  evaluate_through sources at_lookup at_read at_append request now = do
    e ← resolve sources request
    identity ← work_claim_idempotency_identity request
    input_content ← canonical_input_content request e.dispatch e.claimant e.policy
    prior ←
        idempotent at_lookup request.organization_id (lineage_key request) identity input_content
    evaluate_new sources at_read at_append request e identity now prior

  -- `evaluate` with nothing in between.
  unfoldable pub evaluate :
      Sources
      → RepositoryState
      → WorkClaimRequest
      → DateTime
      → Result WorkClaimError (RepositoryState × WorkClaimEvaluationResult)
  unfolding evaluate_through
  evaluate sources repository request now =
      evaluate_through sources repository repository repository request now

  unfoldable pub reconstruct :
      Sources → RepositoryState → String → String → String → Result WorkClaimError WorkClaimEvent
  reconstruct sources repository event_id organization_id workload_context_id = do
    r ← scoped_record (repository.by_id event_id) organization_id workload_context_id
    (_, rebuilt) ← replay sources (stream repository (lineage_key r.request))
    rebuilt_event (rebuilt event_id)
