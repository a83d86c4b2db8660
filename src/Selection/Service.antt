-- ===== src/Selection/Service.antt =====
-- `WorkerSelectionService` of app/runtime/worker_selection/service.py. Its `get`, `history` and `current`
-- are the history's.
pub mod Reach
pub mod Replay
pub mod Retry
pub mod Stored
pub mod Histories
use edgeiq.Base.{
  ℕ, ◌+◌, String, Option, none, some, Result, ok, err, ◌>>=◌, ◌>>◌, guard, ◌==◌, ◌/=◌, text_eq,
  ◌&&◌, Bool,
}
use edgeiq.Platform.{Interpreter, DateTime}
use edgeiq.Selection.Domain.{
  Formats, SelectionError, invalid, replay_failed, replay_diverged, WorkerSelectionRequest,
  WorkerSelection, WorkerSelectionHistoryRecord,
}
use edgeiq.Selection.Serialization.{canonical_hash, request_document}
use edgeiq.Selection.Evaluator
use edgeiq.Selection.History.{HistoryState, append, record_of}

module _ ⦃p : Interpreter⦄ ⦃f : Formats⦄ where
  unfoldable pub input_hash : WorkerSelectionRequest → String
  input_hash request = canonical_hash "worker-selection-service-input" (request_document request)

  -- `evaluate`, with the time that `append` reads.
  unfoldable pub evaluate :
      DateTime
      → HistoryState
      → WorkerSelectionRequest
      → ℕ
      → String
      → Result SelectionError (HistoryState × WorkerSelection)
  unfolding input_hash
  evaluate now h request expected_version idempotency_key = do
    guard (idempotency_key /= "") invalid
    selection ← Evaluator.evaluate request (expected_version + 1)
    append now h
        (record {
          request = request;
          selection = selection;
          idempotency_key = idempotency_key;
          canonical_input_hash = input_hash request;
        })
        expected_version

  unfoldable pub replay_record :
      Option WorkerSelectionHistoryRecord → Result SelectionError WorkerSelection
  replay_record none = err replay_failed
  replay_record (some x) = do
    replayed ← Evaluator.evaluate x.request x.selection.version
    guard
        (replayed.selection_id == x.selection.selection_id
          && replayed.canonical_hash == x.selection.canonical_hash
          && replayed.replay_metadata.replay_output_hash
            == x.selection.replay_metadata.replay_output_hash)
        replay_diverged
    ok (record replayed { recorded_at = x.selection.recorded_at })

  unfoldable pub replay : HistoryState → String → Result SelectionError WorkerSelection
  unfolding replay_record
  replay h selection_id = replay_record (record_of h selection_id)
