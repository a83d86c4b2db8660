-- ===== src/Selection/Service/Retry.antt =====
-- Operation keys and versions of `evaluate`.
use edgeiq.Base.{ℕ, ◌+◌, String, ◌≡◌, refl, sym, ap, ◌∙◌, some, ok, err, text_eq, nat_eq, put_self}
use edgeiq.Platform.{Interpreter, DateTime}
use edgeiq.Selection.Domain.{
  Formats, idempotency_conflict, WorkerSelectionRequest, WorkerSelection,
  WorkerSelectionHistoryRecord,
}
use edgeiq.Selection.Evaluator
use edgeiq.Selection.Evaluator.Version.{
  evaluate_again, evaluate-organization_id, evaluate-workload_context_id,
}
use edgeiq.Selection.History.{
  HistoryState, OperationKey, operation_key_eq, operation_key, accepted, publish,
}
use edgeiq.Selection.History.Growth.{Appended, append-Appended, append_held, Grows}
use edgeiq.Selection.Service.{input_hash, evaluate}
use edgeiq.Selection.Service.Reach.{evaluate-Called, record_for}

-- The operation key of a request.
abbrev pub key_of : WorkerSelectionRequest → String → OperationKey
key_of request key = ((request.organization_id, request.workload_context_id), "evaluate", key)

module _ ⦃p : Interpreter⦄ ⦃f : Formats⦄ where
  -- The history holds, under the request's operation key, a record of the selection and the input.
  pub record Holds (h : HistoryState) (request : WorkerSelectionRequest) (key : String)
      (s : WorkerSelection) : Type 0 where
    pub found : WorkerSelectionHistoryRecord
    pub indexed : h.idempotency (key_of request key) ≡ some found
    pub hashed : found.canonical_input_hash ≡ input_hash request
    pub kept : found.selection ≡ s

  pub key_for :
      (request : WorkerSelectionRequest) (version : ℕ) (key : String) {s : WorkerSelection}
      → Evaluator.evaluate request version ≡ ok s
      → operation_key (record_for request s key) ≡ key_of request key
  key_for request version key h =
      rw
        (evaluate-organization_id request version h, evaluate-workload_context_id request version h)
        refl

  module _ (now : DateTime) (h : HistoryState) (request : WorkerSelectionRequest) (version : ℕ)
      (key : String) {h' : HistoryState} {s : WorkerSelection} where
    appended-Holds :
        (new : WorkerSelectionHistoryRecord)
        → operation_key new ≡ key_of request key
        → new.canonical_input_hash ≡ input_hash request
        → Appended now h new version h' s
        → Holds h' request key s
    unfolding accepted publish
    appended-Holds new own hashed (Appended.retried prior held same unchanged returned) = record {
      found = prior;
      indexed = rw (unchanged, ← own) held;
      hashed = same ∙ hashed;
      kept = sym returned;
    }
    appended-Holds new own hashed
          (Appended.identified prior unused named counted same indexed returned) =
        record {
          found = prior;
          indexed = rw (indexed, ← own) (put_self h.idempotency (operation_key new) prior);
          hashed = same ∙ hashed;
          kept = sym returned;
        }
    appended-Holds new own hashed (Appended.stored unused fresh counted published returned) =
        record {
          found = accepted now h new;
          indexed =
              rw (published, ← own)
                (put_self h.idempotency (operation_key new) (accepted now h new));
          hashed = hashed;
          kept = sym returned;
        }

    pub evaluate-Holds : evaluate now h request version key ≡ ok (h', s) → Holds h' request key s
    evaluate-Holds r =
        let c = evaluate-Called now h request version key r in
        let new = record_for request c.computed key in
        appended-Holds new (key_for request (version + 1) key c.evaluation) refl
          (append-Appended now h new version c.appended)

  -- A call that returned may be made again at any later time and with any expected version: it returns the
  -- selection that it returned first and changes nothing, whatever other calls did in between.
  pub evaluate_repeated :
      (now later : DateTime) (h k : HistoryState) (request : WorkerSelectionRequest)
      (version other : ℕ) (key : String) {h' : HistoryState} {s : WorkerSelection}
      → evaluate now h request version key ≡ ok (h', s)
      → Grows h' k
      → evaluate later k request other key ≡ ok (k, s)
  unfolding evaluate
  evaluate_repeated now later h k request version other key r g =
      let c = evaluate-Called now h request version key r in
      let held = evaluate-Holds now h request version key r in
      let (t, again) = evaluate_again request (version + 1) c.evaluation (other + 1) in
      let kept = g.idempotency.kept _ _ held.indexed in
      rw (c.keyed, again)
        ((append_held later k (record_for request t key) held.found other
              (rw (key_for request (other + 1) key again) kept)).0
            held.hashed
          ∙ ap (λ s. ok (k, s)) held.kept)

  -- The operation key of a call that returned is refused for an input with another hash.
  pub evaluate_other_input :
      (now later : DateTime) (h k : HistoryState) (request changed : WorkerSelectionRequest)
      (version other : ℕ) (key : String) {h' : HistoryState} {s t : WorkerSelection}
      → evaluate now h request version key ≡ ok (h', s)
      → Grows h' k
      → key_of changed key ≡ key_of request key
      → ¬ (input_hash changed ≡ input_hash request)
      → Evaluator.evaluate changed (other + 1) ≡ ok t
      → evaluate later k changed other key ≡ err idempotency_conflict
  unfolding evaluate
  evaluate_other_input now later h k request changed version other key {t = t} r g same differ
        evaluated =
      let c = evaluate-Called now h request version key r in
      let held = evaluate-Holds now h request version key r in
      let kept = g.idempotency.kept _ _ held.indexed in
      rw (c.keyed, evaluated)
        ((append_held later k (record_for changed t key) held.found other
            (rw (key_for changed (other + 1) key evaluated, same) kept)).1
          (λ e. differ (sym e ∙ held.hashed)))
