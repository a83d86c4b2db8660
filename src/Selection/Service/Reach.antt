-- ===== src/Selection/Service/Reach.antt =====
-- The states of a service that starts empty. A call of `evaluate` computes on its arguments alone and
-- then appends under the lock, so that calls of several threads act in the order of their appends.
use edgeiq.Base.{
  ℕ, ◌+◌, String, ◌≡◌, refl, sym, ap, ◌∙◌, subst, some, ok, >>=-eq-ok, arith, length, guard, ◌/=◌,
  text_eq,
}
use edgeiq.Platform.{Interpreter, DateTime}
use edgeiq.Selection.Domain.{
  Formats, invalid, WorkerSelectionRequest, WorkerSelection, WorkerSelectionHistoryRecord,
}
use edgeiq.Selection.Evaluator
use edgeiq.Selection.Evaluator.Version.{evaluate-version}
use edgeiq.Selection.History.{HistoryState, empty_history, stream, stream_key, accepted, append}
use edgeiq.Selection.History.Soundness.{IsSound, empty-IsSound, append-IsSound}
use edgeiq.Selection.Service.{input_hash, evaluate}

module _ ⦃p : Interpreter⦄ ⦃f : Formats⦄ where
  pub data Reach : HistoryState → Type 0 where
    start : Reach empty_history
    evaluated :
        {h : HistoryState} (now : DateTime) (request : WorkerSelectionRequest) (version : ℕ)
        (key : String) (h' : HistoryState) (s : WorkerSelection)
        → Reach h
        → evaluate now h request version key ≡ ok (h', s)
        → Reach h'

  -- The record holds what the evaluator computed, and the time of its recording.
  pub record Genuine (x : WorkerSelectionHistoryRecord) : Type 0 where
    pub computed : WorkerSelection
    pub time : DateTime
    pub evaluation : Evaluator.evaluate x.request computed.version ≡ ok computed
    pub kept : x.selection ≡ record computed { recorded_at = some time }
    pub hashed : x.canonical_input_hash ≡ input_hash x.request

  -- The record that `evaluate` hands over.
  abbrev pub record_for :
      WorkerSelectionRequest → WorkerSelection → String → WorkerSelectionHistoryRecord
  record_for request s key = record {
    request = request;
    selection = s;
    idempotency_key = key;
    canonical_input_hash = input_hash request;
  }

  -- What a call of `evaluate` that returned did.
  pub record Called (now : DateTime) (h : HistoryState) (request : WorkerSelectionRequest)
      (version : ℕ) (key : String) (h' : HistoryState) (s : WorkerSelection) : Type 0 where
    pub keyed : guard (key /= "") invalid ≡ ok tt
    pub computed : WorkerSelection
    pub evaluation : Evaluator.evaluate request (version + 1) ≡ ok computed
    pub appended : append now h (record_for request computed key) version ≡ ok (h', s)

  module _ (now : DateTime) (h : HistoryState) (request : WorkerSelectionRequest) (version : ℕ)
      (key : String) {h' : HistoryState} {s : WorkerSelection} where
    pub evaluate-Called :
        evaluate now h request version key ≡ ok (h', s) → Called now h request version key h' s
    unfolding evaluate
    evaluate-Called r =
        let (u, keyed, r1) = >>=-eq-ok (guard (key /= "") invalid) _ r in
        let (computed, evaluation, r2) =
          >>=-eq-ok (Evaluator.evaluate request (version + 1)) _ r1 in
        record { keyed = keyed; computed = computed; evaluation = evaluation; appended = r2 }

    accepted-Genuine :
        (c : Called now h request version key h' s)
        → version ≡ length (stream h (stream_key c.computed))
        → Genuine (accepted now h (record_for request c.computed key))
    unfolding accepted
    accepted-Genuine c counted = record {
      computed = c.computed;
      time = now;
      evaluation =
          subst (λ n. Evaluator.evaluate request n ≡ ok c.computed)
            (sym (evaluate-version request (version + 1) c.evaluation)) c.evaluation;
      kept =
          ap (λ (n : ℕ). record c.computed { version = n; recorded_at = some now })
            (omega (arith, counted) ∙ sym (evaluate-version request (version + 1) c.evaluation));
      hashed = refl;
    }

  -- In every state that calls of `evaluate` reach, the indexes agree with the streams, versions count from
  -- 1, and each record holds what the evaluator computes for its request.
  pub Reach-IsSound : {h : HistoryState} → Reach h → IsSound Genuine h
  Reach-IsSound Reach.start = empty-IsSound Genuine
  Reach-IsSound (Reach.evaluated {h} now request version key h' s before r) =
      let c = evaluate-Called now h request version key r in
      append-IsSound Genuine h (Reach-IsSound before) now (record_for request c.computed key)
        version (accepted-Genuine now h request version key c) c.appended
