-- ===== src/Selection/Witnesses.antt =====
-- The theorems on worker selection, applied to the scenario.
use edgeiq.Base.{
  ◌≡◌, refl, ◌↔◌, String, ap, true, false, some, none, List, [], ◌∷◌, ◌++◌, ok, err, is_ok,
  is_ok→ok, All, In, map, length, empty_dict, Result, String_discrete, ◌==◌, text_eq,
}
use mathlib.Core.List.{Permᴰ}
use edgeiq.Base.Sorting.{Pairs}
use edgeiq.Platform.Plain.{plain}
use edgeiq.Selection.Domain.{
  SelectionError, idempotency_conflict, replay_failed, WorkerReadinessEvidence,
  WorkerSelectionRequest, WorkerSelectionCandidate, WorkerSelection, worker_selection_request,
  candidate_found, indeterminate, policy_filtered,
}
use edgeiq.Selection.Domain.Order.{worker_selection_request-Permᴰ}
use edgeiq.Selection.Evaluator.{exclusion_reasons, categories, is_empty}
use edgeiq.Selection.Evaluator
use edgeiq.Selection.Evaluator.Eligibility.{Eligible, exclusion_reasons-Eligible}
use edgeiq.Selection.Evaluator.Ordering.{Numbered, Precedes, evaluate-Precedes}
use edgeiq.Selection.Evaluator.Partition.{admitted, refused, excluding, evaluate-admitted}
use edgeiq.Selection.Evaluator.Scores.{Scaled, evaluate-Scaled}
use edgeiq.Selection.Evaluator.Verdict.{AnyEligible, evaluate-AnyEligible}
use edgeiq.Selection.History.{HistoryState, empty_history, get, history, current}
use edgeiq.Selection.History.Growth.{Grows-refl}
use edgeiq.Selection.Service.{evaluate, replay, input_hash}
use edgeiq.Selection.Service.Histories.{Versioned, evaluate-get, history-Versioned}
use edgeiq.Selection.Service.Reach.{Reach, start, evaluated}
use edgeiq.Selection.Service.Replay.{replay-eq-get}
use edgeiq.Selection.Service.Retry.{evaluate_repeated, evaluate_other_input}
use edgeiq.Selection.Service.Stored.{evaluate_stored, recorded}
use edgeiq.Selection.Scenario.{
  formats, moment, workers, worker, request, smaller, world, evaluated as evaluated_request,
  evaluated_runs,
}

abbrev selection : WorkerSelection
selection = (is_ok→ok evaluated_request evaluated_runs).0

selected : Evaluator.evaluate request 1 ≡ ok selection
selected = (is_ok→ok evaluated_request evaluated_runs).1

evaluate-Precedes_example : Numbered 1 selection.candidates × Pairs Precedes selection.candidates
evaluate-Precedes_example = evaluate-Precedes request 1 selected

evaluate-admitted_example :
    Permᴰ
      (map (λ (c : WorkerSelectionCandidate). c.worker_id) selection.candidates)
      (map (λ (e : WorkerReadinessEvidence). e.worker_id) (admitted request workers))
    × (selection.excluded_workers ≡ map (excluding request) (refused request workers))
evaluate-admitted_example = evaluate-admitted request 1 selected

exclusion_reasons-Eligible_example :
    exclusion_reasons request (worker "c" true (some false) []) ≡ []
    ↔ Eligible request (worker "c" true (some false) [])
exclusion_reasons-Eligible_example =
    exclusion_reasons-Eligible request (worker "c" true (some false) [])

evaluate-AnyEligible_example :
    (selection.outcome ≡ candidate_found ↔ AnyEligible request workers)
    × (selection.outcome ≡ indeterminate
        ↔ (¬ AnyEligible request workers)
          × In "CONTRADICTORY_EVIDENCE" (categories selection.excluded_workers))
    × (selection.outcome ≡ policy_filtered
        ↔ (¬ AnyEligible request workers)
          × (is_empty (categories selection.excluded_workers) ≡ false)
          × All (λ reason. reason ≡ "HARD_POLICY_FILTERED") (categories selection.excluded_workers))
evaluate-AnyEligible_example = evaluate-AnyEligible request 1 selected

evaluate-Scaled_example : All (Scaled request) selection.candidates
evaluate-Scaled_example = evaluate-Scaled request 1 selected

abbrev reversed : List WorkerReadinessEvidence
reversed = worker "b" true none [] ∷ worker "a" true none [] ∷ []

abbrev pair : WorkerSelectionRequest
pair = record request { readiness = worker "a" true none [] ∷ worker "b" true none [] ∷ [] }

apart : ¬ (◌≡◌ {A = String} "a" "b")
unfolding String_discrete
apart h = let e : true ≡ false = ap (λ s. s == "a") h in cc

worker_selection_request-Permᴰ_example :
    worker_selection_request (record pair { readiness = reversed }) ≡ worker_selection_request pair
worker_selection_request-Permᴰ_example =
    worker_selection_request-Permᴰ pair reversed (Permᴰ.swap refl refl) ((apart, tt), (tt, tt))

abbrev first_call : Result SelectionError (HistoryState × WorkerSelection)
first_call = evaluate (moment 30) empty_history request 0 "k"

first_call_runs : is_ok first_call ≡ true
unfolding world
first_call_runs = refl

abbrev after : HistoryState
after = (is_ok→ok first_call first_call_runs).0.0

abbrev stored : WorkerSelection
stored = (is_ok→ok first_call first_call_runs).0.1

called : evaluate (moment 30) empty_history request 0 "k" ≡ ok (after, stored)
called = (is_ok→ok first_call first_call_runs).1

reached : Reach after
reached = evaluated (moment 30) request 0 "k" after stored start called

replay-eq-get_example :
    ((s : WorkerSelection)
      → get after stored.selection_id ≡ some s
      → replay after stored.selection_id ≡ ok s)
    × (get after stored.selection_id ≡ none → replay after stored.selection_id ≡ err replay_failed)
replay-eq-get_example = replay-eq-get reached stored.selection_id

history-Versioned_example :
    Versioned 1 (history after "org" "ctx")
    × ((s : WorkerSelection)
        → current after "org" "ctx" ≡ some s
        → s.version ≡ length (history after "org" "ctx"))
history-Versioned_example = history-Versioned reached "org" "ctx"

evaluate-get_example :
    (get after stored.selection_id ≡ some stored)
    × In stored (history after stored.organization_id stored.workload_context_id)
evaluate-get_example = evaluate-get (moment 30) request 0 "k" start called

evaluate_repeated_example : evaluate (moment 80) after request 5 "k" ≡ ok (after, stored)
evaluate_repeated_example =
    evaluate_repeated (moment 30) (moment 80) empty_history after request 0 5 "k" called
      (Grows-refl after)

smaller_runs : is_ok (Evaluator.evaluate smaller 2) ≡ true
unfolding world
smaller_runs = refl

hashes_differ : ¬ (input_hash smaller ≡ input_hash request)
unfolding world
hashes_differ h = let e : true ≡ false = ap (λ s. s == input_hash smaller) h in cc

evaluate_other_input_example : evaluate (moment 80) after smaller 1 "k" ≡ err idempotency_conflict
evaluate_other_input_example =
    evaluate_other_input (moment 30) (moment 80) empty_history after request smaller 0 1 "k" called
      (Grows-refl after) refl hashes_differ (is_ok→ok (Evaluator.evaluate smaller 2) smaller_runs).1

named : ¬ (◌≡◌ {A = String} "k" "")
unfolding String_discrete
named h = let e : true ≡ false = ap (λ s. s == "k") h in cc

evaluate_stored_example :
    (h' : HistoryState) × (evaluate (moment 30) empty_history request 0 "k"
      ≡ ok (h', recorded (moment 30) empty_history request "k" selection))
    × (history h' "org" "ctx"
        ≡ history empty_history "org" "ctx"
          ++ recorded (moment 30) empty_history request "k" selection ∷ [])
    × (selection.version ≡ 1)
unfolding empty_dict
evaluate_stored_example =
    evaluate_stored (moment 30) empty_history request "k" named refl refl selected
