-- ===== src/Selection/History.antt =====
-- `InMemoryWorkerSelectionHistory` of app/runtime/worker_selection/service.py. The lock makes each
-- method one step; a call that raises leaves what the caller can read. `setdefault` may leave an empty
-- stream, which every method reads as it reads a missing one.
pub mod Growth
pub mod Soundness
use edgeiq.Base.{
  ℕ, ◌+◌, String, Option, none, some, List, [], ◌∷◌, ◌++◌, Result, ok, ◌>>=◌, ◌>>◌, guard, Eq, ◌==◌,
  text_eq, nat_eq, Dict, put, empty_dict, get_or_else, length, map, String_discrete,
}
use edgeiq.Platform.{DateTime}
use edgeiq.Selection.Domain.{
  SelectionError, idempotency_conflict, version_conflict, WorkerSelection,
  WorkerSelectionHistoryRecord,
}

abbrev pub StreamKey : Type 0
StreamKey = String × String

unfoldable pub StreamKey_discrete : Discrete StreamKey
StreamKey_discrete = hlevel (String_discrete)

instance abbrev pub stream_key_eq : Eq StreamKey
stream_key_eq = record { dec = StreamKey_discrete }

abbrev pub OperationKey : Type 0
OperationKey = StreamKey × String × String

unfoldable pub OperationKey_discrete : Discrete OperationKey
OperationKey_discrete = hlevel (StreamKey_discrete, String_discrete)

instance abbrev pub operation_key_eq : Eq OperationKey
operation_key_eq = record { dec = OperationKey_discrete }

pub record HistoryState : Type 0 where
  pub streams : Dict StreamKey (List WorkerSelectionHistoryRecord)
  pub by_id : Dict String WorkerSelectionHistoryRecord
  pub idempotency : Dict OperationKey WorkerSelectionHistoryRecord

abbrev pub empty_history : HistoryState
empty_history = record { streams = empty_dict; by_id = empty_dict; idempotency = empty_dict }

abbrev pub stream : HistoryState → StreamKey → List WorkerSelectionHistoryRecord
stream h key = get_or_else [] (h.streams key)

abbrev pub stream_key : WorkerSelection → StreamKey
stream_key s = (s.organization_id, s.workload_context_id)

abbrev pub operation_key : WorkerSelectionHistoryRecord → OperationKey
operation_key x = (stream_key x.selection, "evaluate", x.idempotency_key)

-- `accepted_record`: the selection at the next version, with the time of its recording.
unfoldable pub accepted :
    DateTime → HistoryState → WorkerSelectionHistoryRecord → WorkerSelectionHistoryRecord
accepted now h new = record new {
  selection = record (new.selection) {
    version = length (stream h (stream_key new.selection)) + 1;
    recorded_at = some now;
  };
}

-- The state after a record is accepted.
unfoldable pub publish : HistoryState → OperationKey → WorkerSelectionHistoryRecord → HistoryState
publish h key x =
    let own = stream_key x.selection in
    record {
      streams = put h.streams own (stream h own ++ x ∷ []);
      by_id = put h.by_id x.selection.selection_id x;
      idempotency = put h.idempotency key x;
    }

-- From the lookup of the operation key and of the selection's identity on.
append_checked :
    DateTime
    → HistoryState
    → WorkerSelectionHistoryRecord
    → ℕ
    → Option WorkerSelectionHistoryRecord
    → Option WorkerSelectionHistoryRecord
    → Result SelectionError (HistoryState × WorkerSelection)
append_checked now h new expected_version (some prior) identity = do
  guard (prior.canonical_input_hash == new.canonical_input_hash) idempotency_conflict
  ok (h, prior.selection)
append_checked now h new expected_version none (some prior) = do
  guard (expected_version == length (stream h (stream_key new.selection))) version_conflict
  guard (prior.canonical_input_hash == new.canonical_input_hash) idempotency_conflict
  ok (record h { idempotency = put h.idempotency (operation_key new) prior }, prior.selection)
append_checked now h new expected_version none none = do
  guard (expected_version == length (stream h (stream_key new.selection))) version_conflict
  ok (publish h (operation_key new) (accepted now h new), (accepted now h new).selection)

unfoldable pub append :
    DateTime
    → HistoryState
    → WorkerSelectionHistoryRecord
    → ℕ
    → Result SelectionError (HistoryState × WorkerSelection)
unfolding append_checked
append now h new expected_version =
    append_checked now h new expected_version (h.idempotency (operation_key new))
      (h.by_id new.selection.selection_id)

unfoldable pub get : HistoryState → String → Option WorkerSelection
get h selection_id = elim (h.by_id selection_id) [ none ↦ none | some x ↦ some x.selection ]

-- The method `record`.
abbrev pub record_of : HistoryState → String → Option WorkerSelectionHistoryRecord
record_of h selection_id = h.by_id selection_id

unfoldable pub history : HistoryState → String → String → List WorkerSelection
history h organization_id workload_context_id =
    map (λ (x : WorkerSelectionHistoryRecord). x.selection)
      (stream h (organization_id, workload_context_id))

-- `history[-1] if history else None`.
abbrev pub last_of {ℓ} : {A : Type ℓ} → List A → Option A
last_of [] = none
last_of (x ∷ []) = some x
last_of (x ∷ y ∷ ys) = last_of (y ∷ ys)

unfoldable pub current : HistoryState → String → String → Option WorkerSelection
unfolding history
current h organization_id workload_context_id =
    last_of (history h organization_id workload_context_id)
