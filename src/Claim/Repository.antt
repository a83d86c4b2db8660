-- ===== src/Claim/Repository.antt =====
-- `InMemoryWorkClaimRepository` of app/runtime/work_claim/service.py. A method that changes the state
-- returns the new one; a call that raises leaves the caller's state. The lock makes each method one
-- step, and `_commit_state` assigns one field, so it does not raise.
pub mod Growth
pub mod Conflicts
pub mod Indexes
use edgeiq.Base.{
  ℕ, ◌+◌, String, Option, none, some, List, [], ◌∷◌, ◌++◌, Result, ok, ◌>>◌, guard, Eq, ◌==◌,
  text_eq, nat_eq, Dict, put, empty_dict, get_or_else, length, is_none, String_discrete,
}
use edgeiq.Platform.{Bytes}
use edgeiq.Claim.Domain.{
  WorkClaimError, idempotency_conflict, version_conflict, WorkClaimEvent, WorkClaimRecord,
  LineageKey, LineageKey_discrete, lineage_key, lineage_key_eq, bytes_eq,
}

abbrev pub IdempotencyKey : Type 0
IdempotencyKey = String × LineageKey × String

unfoldable pub IdempotencyKey_discrete : Discrete IdempotencyKey
IdempotencyKey_discrete = hlevel (String_discrete, LineageKey_discrete)

instance abbrev pub idempotency_key_eq : Eq IdempotencyKey
idempotency_key_eq = record { dec = IdempotencyKey_discrete }

pub record RepositoryState : Type 0 where
  pub streams : Dict LineageKey (List WorkClaimRecord)
  pub by_id : Dict String WorkClaimRecord
  pub idempotency : Dict IdempotencyKey WorkClaimRecord
  pub current : Dict LineageKey WorkClaimEvent

abbrev pub empty_repository : RepositoryState
empty_repository = record {
  streams = empty_dict;
  by_id = empty_dict;
  idempotency = empty_dict;
  current = empty_dict;
}

-- `history`: `streams.get(lineage_key, ())`.
abbrev pub stream : RepositoryState → LineageKey → List WorkClaimRecord
stream r key = get_or_else [] (r.streams key)

-- The key under which `append` looks a record up.
abbrev pub idempotency_key_of : WorkClaimRecord → IdempotencyKey
idempotency_key_of r = (r.request.organization_id, lineage_key r.request, r.idempotency_identity)

abbrev prior_event : Bytes → Option WorkClaimRecord → Result WorkClaimError (Option WorkClaimEvent)
prior_event content none = ok none
prior_event content (some prior) = do
  guard (prior.canonical_input_content == content) idempotency_conflict
  ok (some prior.event)

unfoldable pub idempotent :
    RepositoryState
    → String
    → LineageKey
    → String
    → Bytes
    → Result WorkClaimError (Option WorkClaimEvent)
idempotent r organization_id key identity content =
    prior_event content (r.idempotency (organization_id, key, identity))

-- The state that `append` publishes.
unfoldable pub publish : RepositoryState → WorkClaimRecord → RepositoryState
publish r new =
    let key = lineage_key new.request in
    record {
      streams = put r.streams key (stream r key ++ new ∷ []);
      by_id = put r.by_id new.event.event_id new;
      idempotency = put r.idempotency (idempotency_key_of new) new;
      current = put r.current key new.event;
    }

append_checked :
    RepositoryState
    → WorkClaimRecord
    → ℕ
    → Option WorkClaimRecord
    → Result WorkClaimError (RepositoryState × WorkClaimEvent)
append_checked r new expected_version (some prior) = do
  guard (prior.canonical_input_content == new.canonical_input_content) idempotency_conflict
  ok (r, prior.event)
append_checked r new expected_version none = do
  guard (expected_version == length (stream r (lineage_key new.request))) version_conflict
  guard (new.request.expected_lineage_version == expected_version) version_conflict
  guard (new.event.lineage_version == expected_version + 1) version_conflict
  guard (is_none (r.by_id new.event.event_id)) idempotency_conflict
  ok (publish r new, new.event)

unfoldable pub append :
    RepositoryState → WorkClaimRecord → ℕ → Result WorkClaimError (RepositoryState × WorkClaimEvent)
unfolding append_checked
append r new expected_version =
    append_checked r new expected_version (r.idempotency (idempotency_key_of new))
