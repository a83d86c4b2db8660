-- ===== src/Dispatch/Service.antt =====
-- The public methods of `DispatchDecisionService` of app/runtime/dispatch_decision/service.py. `now` is
-- the clock's time, at which a new decision is recorded.
use edgeiq.Base.{
  ℕ, ◌+◌, String, Bool, true, ◌&&◌, Option, none, some, List, [], ◌∷◌, Result, ok, err, ◌>>=◌, ◌>>◌,
  guard, ◌==◌, text_eq, nat_eq, map, if◌then◌else◌,
}
use edgeiq.Platform.{DateTime, Interpreter}
use edgeiq.Dispatch.Domain.{
  DispatchDecisionError, not_found, reconstruction_failed, digest_mismatch, replay_diverged,
  DispatchRequest, DispatchDecision, DispatchDecisionRecord, DispatchEvaluationOutcome, created,
  existing_equivalent, DispatchEvaluationResult, stream_key, dispatch_decision,
  dispatch_decision_eq,
}
use edgeiq.Dispatch.Evidence.{nonempty}
use edgeiq.Dispatch.Serialization.{verify_recorded_content}
use edgeiq.Dispatch.Serialization.Build.{
  canonical_input_content, dispatch_idempotency_identity, build_dispatch_decision,
}
use edgeiq.Dispatch.Repository.{
  RepositoryState, stream, append, idempotency_key_of, current_of, bytes_eq,
}
use edgeiq.Dispatch.Resolve.{Sources, resolve}

-- `accepted is decision`: an append that finds no prior record returns the decision of the new one.
abbrev pub append_outcome : Option DispatchDecisionRecord → DispatchEvaluationOutcome
append_outcome none = created
append_outcome (some prior) = existing_equivalent

abbrev pub evaluation : DispatchEvaluationOutcome → DispatchDecision → DispatchEvaluationResult
evaluation outcome decision = record {
  outcome = outcome;
  decision = decision;
  stream_version = decision.stream_version;
}

-- `record is None or` the test, for `get` and `reconstruct`.
abbrev pub scoped_record :
    Option DispatchDecisionRecord → String → Result DispatchDecisionError DispatchDecisionRecord
scoped_record none organization_id = err not_found
scoped_record (some x) organization_id =
    if x.decision.organization_id == organization_id then ok x else err not_found

unfoldable pub get :
    RepositoryState → String → String → Result DispatchDecisionError DispatchDecision
get repository decision_id organization_id = do
  x ← scoped_record (repository.by_id decision_id) organization_id
  ok x.decision

unfoldable pub history : RepositoryState → DispatchRequest → List DispatchDecision
history repository request =
    map (λ (x : DispatchDecisionRecord). x.decision) (stream repository (stream_key request))

unfoldable pub current : RepositoryState → DispatchRequest → Option DispatchDecision
current repository request = current_of repository (stream_key request)

-- The versions are `range(n, n + len(history))`.
abbrev pub counts_from : ℕ → List DispatchDecisionRecord → Bool
counts_from n [] = true
counts_from n (x ∷ xs) = let rest = counts_from (n + 1) xs in x.decision.stream_version == n && rest

module _ ⦃p : Interpreter⦄ where
  -- What `evaluate` hands to `append`.
  unfoldable pub prepare :
      Sources
      → DispatchRequest
      → ℕ
      → String
      → DateTime
      → Result DispatchDecisionError DispatchDecisionRecord
  prepare sources request expected_version idempotency_key now = do
    (e, policy) ← resolve sources request
    identity ← dispatch_idempotency_identity request idempotency_key
    (decision, input_content, decision_content) ←
        build_dispatch_decision e policy (expected_version + 1) identity now
    ok (record {
      request = request;
      decision = decision;
      idempotency_identity = identity;
      canonical_input_content = input_content;
      canonical_decision_content = decision_content;
    })

  unfoldable pub evaluate :
      Sources
      → RepositoryState
      → DispatchRequest
      → ℕ
      → String
      → DateTime
      → Result DispatchDecisionError (RepositoryState × DispatchEvaluationResult)
  unfolding prepare
  evaluate sources repository request expected_version idempotency_key now = do
    new ← prepare sources request expected_version idempotency_key now
    (repository', accepted) ← append repository new expected_version
    ok (
      repository',
      evaluation (append_outcome (repository.idempotency (idempotency_key_of new))) accepted,
    )

  -- `reconstruct`, from its record and the record's history on.
  unfoldable pub rebuild :
      Sources
      → DispatchDecisionRecord
      → List DispatchDecisionRecord
      → Result DispatchDecisionError DispatchDecision
  rebuild sources x records = do
    guard (nonempty records && counts_from 1 records) reconstruction_failed
    verify_recorded_content x.decision x.canonical_input_content x.canonical_decision_content
    (e, policy) ← resolve sources x.request
    expected_input ← canonical_input_content e policy
    guard (expected_input == x.canonical_input_content) digest_mismatch
    (rebuilt, rebuilt_input, rebuilt_decision) ←
        build_dispatch_decision e policy x.decision.stream_version x.idempotency_identity
          x.decision.recorded_at
    guard
        (rebuilt_input == x.canonical_input_content
          && rebuilt_decision == x.canonical_decision_content
          && rebuilt == x.decision)
        replay_diverged
    -- `replace`, which runs the constructor's checks again.
    dispatch_decision (record rebuilt { recorded_at = x.decision.recorded_at })

  unfoldable pub reconstruct :
      Sources → RepositoryState → String → String → Result DispatchDecisionError DispatchDecision
  unfolding rebuild
  reconstruct sources repository decision_id organization_id = do
    x ← scoped_record (repository.by_id decision_id) organization_id
    rebuild sources x (stream repository (stream_key x.request))
