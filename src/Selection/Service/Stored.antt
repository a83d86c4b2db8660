-- ===== src/Selection/Service/Stored.antt =====
-- When a call of `evaluate` stores its selection.
use edgeiq.Base.{
  ℕ, ◌+◌, String, ◌≡◌, refl, sym, ap, ◌∙◌, subst, some, none, List, [], ◌∷◌, ◌++◌, ok, arith,
  length, map, ◌/=◌, guard, text_eq,
}
use edgeiq.Platform.{Interpreter, DateTime}
use edgeiq.Selection.Domain.{
  Formats, invalid, WorkerSelectionRequest, WorkerSelection, WorkerSelectionHistoryRecord,
}
use edgeiq.Selection.Evaluator
use edgeiq.Selection.Evaluator.{selection_id_of}
use edgeiq.Selection.Evaluator.Version.{
  evaluate-version, evaluate-organization_id, evaluate-workload_context_id, evaluate-selection_id,
}
use edgeiq.Selection.History.{
  HistoryState, StreamKey, OperationKey, append, stream, stream_key, operation_key, accepted,
  publish, history,
}
use edgeiq.Selection.History.Growth.{append_new, stream-publish_self}
use edgeiq.Selection.Service.{evaluate}
use edgeiq.Selection.Service.Reach.{record_for}
use edgeiq.Selection.Service.Retry.{key_of, key_for}

abbrev selection_of_record : WorkerSelectionHistoryRecord → WorkerSelection
selection_of_record x = x.selection

map-append_last :
    (xs : List WorkerSelectionHistoryRecord) (x : WorkerSelectionHistoryRecord)
    → map selection_of_record (xs ++ x ∷ []) ≡ map selection_of_record xs ++ x.selection ∷ []
map-append_last [] x = refl
map-append_last (y ∷ ys) x = ap (λ l. y.selection ∷ l) (map-append_last ys x)

module _ ⦃p : Interpreter⦄ ⦃f : Formats⦄ (now : DateTime) (h : HistoryState)
    (request : WorkerSelectionRequest) (key : String) where
  abbrev pub own : StreamKey
  own = (request.organization_id, request.workload_context_id)

  -- The selection as it is stored.
  abbrev pub recorded : WorkerSelection → WorkerSelection
  recorded s = record s { recorded_at = some now }

  module _ {s : WorkerSelection}
      (evaluated : Evaluator.evaluate request (length (stream h own) + 1) ≡ ok s) where
    same_stream : stream_key s ≡ own
    same_stream =
        rw
          (
            evaluate-organization_id request (length (stream h own) + 1) evaluated,
            evaluate-workload_context_id request (length (stream h own) + 1) evaluated,
          )
          refl

    accepted_selection : (accepted now h (record_for request s key)).selection ≡ recorded s
    unfolding accepted
    accepted_selection =
        ap (λ (n : ℕ). record s { version = n; recorded_at = some now })
          (ap (λ k. length (stream h k) + 1) same_stream
            ∙ sym (evaluate-version request (length (stream h own) + 1) evaluated))

  evaluate-append :
      (version : ℕ) {s : WorkerSelection}
      → ¬ (key ≡ "")
      → Evaluator.evaluate request (version + 1) ≡ ok s
      → evaluate now h request version key ≡ append now h (record_for request s key) version
  unfolding evaluate
  evaluate-append version keyed evaluated =
      let passes : guard (key /= "") invalid ≡ ok tt = ground (arith, keyed) in
      rw (passes, evaluated) refl

  -- A stream's history after a record of it is published.
  history-publish :
      (k : OperationKey) (x : WorkerSelectionHistoryRecord) (s : WorkerSelection)
      → stream_key x.selection ≡ own
      → x.selection ≡ s
      → history (publish h k x) own.0 own.1 ≡ history h own.0 own.1 ++ s ∷ []
  unfolding history
  history-publish k x s same kept =
      ap (map selection_of_record) (
        subst (λ key. stream (publish h k x) key ≡ stream h key ++ x ∷ []) same
          (stream-publish_self h k x))
      ∙ map-append_last (stream h own) x
      ∙ ap (λ t. history h own.0 own.1 ++ t ∷ []) kept

  -- A request that the evaluator takes, under an operation key that is new and with an identity that is
  -- new, is stored by a call that expects the current version: the call returns the evaluator's selection
  -- at the next version with the time of the call, and appends it to the history of its stream.
  pub evaluate_stored :
      {s : WorkerSelection}
      → ¬ (key ≡ "")
      → h.idempotency (key_of request key) ≡ none
      → h.by_id (selection_id_of request) ≡ none
      → Evaluator.evaluate request (length (stream h own) + 1) ≡ ok s
      → (h' : HistoryState) × (evaluate now h request (length (stream h own)) key
          ≡ ok (h', recorded s))
        × (history h' own.0 own.1 ≡ history h own.0 own.1 ++ recorded s ∷ [])
        × (s.version ≡ length (stream h own) + 1)
  evaluate_stored {s} keyed unused fresh evaluated =
      let new = record_for request s key in
      let x = accepted now h new in
      let version = length (stream h own) in
      let stored =
        append_new now h new version (rw (key_for request (version + 1) key evaluated) unused)
          (rw (evaluate-selection_id request (version + 1) evaluated) fresh)
          (ap (λ k. length (stream h k)) (sym (same_stream evaluated))) in
      let kept = accepted_selection evaluated in
      (
        publish h (operation_key new) x,
        evaluate-append version keyed evaluated
            ∙ stored
            ∙ ap (λ t. ok (publish h (operation_key new) x, t)) kept,
        history-publish (operation_key new) x (recorded s)
            (ap stream_key kept ∙ same_stream evaluated) kept,
        evaluate-version request (version + 1) evaluated,
      )
