-- ===== src/Dispatch/Repository.antt =====
-- `InMemoryDispatchDecisionRepository` of app/runtime/dispatch_decision/service.py. The lock makes each
-- method one step, and `_commit_state` assigns one field, so it does not raise.
pub mod Growth
use edgeiq.Base.{
  ℕ, ◌+◌, String, Option, none, some, List, [], ◌∷◌, ◌++◌, Result, ok, ◌>>=◌, ◌>>◌, guard, Eq, ◌==◌,
  text_eq, nat_eq, Dict, put, empty_dict, get_or_else, length, is_none, String_discrete,
}
use native.Mathlib.Decide.{ℕ_discrete}
use edgeiq.Platform.{Bytes}
use edgeiq.Dispatch.Domain.{
  DispatchDecisionError, idempotency_conflict, version_conflict, DispatchDecision,
  DispatchDecisionRecord, StreamKey, StreamKey_discrete, stream_key, stream_key_eq,
}

abbrev pub IdempotencyKey : Type 0
IdempotencyKey = StreamKey × String

unfoldable pub IdempotencyKey_discrete : Discrete IdempotencyKey
IdempotencyKey_discrete = hlevel (String_discrete, StreamKey_discrete)

instance abbrev pub idempotency_key_eq : Eq IdempotencyKey
idempotency_key_eq = record { dec = IdempotencyKey_discrete }

unfoldable pub Bytes_discrete : Discrete Bytes
Bytes_discrete = hlevel ℕ_discrete

instance abbrev pub bytes_eq : Eq Bytes
bytes_eq = record { dec = Bytes_discrete }

pub record RepositoryState : Type 0 where
  pub streams : Dict StreamKey (List DispatchDecisionRecord)
  pub by_id : Dict String DispatchDecisionRecord
  pub idempotency : Dict IdempotencyKey DispatchDecisionRecord

abbrev pub empty_repository : RepositoryState
empty_repository = record { streams = empty_dict; by_id = empty_dict; idempotency = empty_dict }

-- `history`.
abbrev pub stream : RepositoryState → StreamKey → List DispatchDecisionRecord
stream r key = get_or_else [] (r.streams key)

abbrev pub idempotency_key_of : DispatchDecisionRecord → IdempotencyKey
idempotency_key_of x = (stream_key x.request, x.idempotency_identity)

-- The state that `append` publishes.
unfoldable pub publish : RepositoryState → DispatchDecisionRecord → RepositoryState
publish r new =
    let key = stream_key new.request in
    record {
      streams = put r.streams key (stream r key ++ new ∷ []);
      by_id = put r.by_id new.decision.dispatch_decision_id new;
      idempotency = put r.idempotency (idempotency_key_of new) new;
    }

append_checked :
    RepositoryState
    → DispatchDecisionRecord
    → ℕ
    → Option DispatchDecisionRecord
    → Result DispatchDecisionError (RepositoryState × DispatchDecision)
append_checked r new expected_version (some prior) = do
  guard (prior.canonical_input_content == new.canonical_input_content) idempotency_conflict
  ok (r, prior.decision)
append_checked r new expected_version none = do
  guard (expected_version == length (stream r (stream_key new.request))) version_conflict
  guard (new.decision.stream_version == expected_version + 1) version_conflict
  guard (is_none (r.by_id new.decision.dispatch_decision_id)) idempotency_conflict
  ok (publish r new, new.decision)

unfoldable pub append :
    RepositoryState
    → DispatchDecisionRecord
    → ℕ
    → Result DispatchDecisionError (RepositoryState × DispatchDecision)
unfolding append_checked
append r new expected_version =
    append_checked r new expected_version (r.idempotency (idempotency_key_of new))

abbrev pub last_of : List DispatchDecisionRecord → Option DispatchDecision
last_of [] = none
last_of (x ∷ []) = some x.decision
last_of (x ∷ y ∷ ys) = last_of (y ∷ ys)

-- `current`.
abbrev pub current_of : RepositoryState → StreamKey → Option DispatchDecision
current_of r key = last_of (stream r key)
