-- ===== src/Selection/Evaluator/Version.antt =====
-- What an evaluation takes from the request alone, and what from the version.
use edgeiq.Base.{ℕ, ◌≡◌, refl, ap, ok}
use edgeiq.Platform.{Interpreter}
use edgeiq.Selection.Domain.{Formats, WorkerSelectionRequest, WorkerSelection}
use edgeiq.Selection.Evaluator.{selection_id_of, selection_of, evaluate}
use edgeiq.Selection.Evaluator.Ordering.{evaluate-Evaluated}

module _ ⦃p : Interpreter⦄ ⦃f : Formats⦄ (r : WorkerSelectionRequest) (version : ℕ)
    {s : WorkerSelection} (h : evaluate r version ≡ ok s) where
  pub evaluate-version : s.version ≡ version
  unfolding selection_of
  evaluate-version =
      ap (λ (s : WorkerSelection). s.version) (evaluate-Evaluated r version h).selection

  pub evaluate-organization_id : s.organization_id ≡ r.organization_id
  unfolding selection_of
  evaluate-organization_id =
      ap (λ (s : WorkerSelection). s.organization_id) (evaluate-Evaluated r version h).selection

  pub evaluate-workload_context_id : s.workload_context_id ≡ r.workload_context_id
  unfolding selection_of
  evaluate-workload_context_id =
      ap (λ (s : WorkerSelection). s.workload_context_id) (evaluate-Evaluated r version h).selection

  pub evaluate-selection_id : s.selection_id ≡ selection_id_of r
  unfolding selection_of
  evaluate-selection_id =
      ap (λ (s : WorkerSelection). s.selection_id) (evaluate-Evaluated r version h).selection

  -- The request that is evaluated at one version is evaluated at every version.
  pub evaluate_again : (other : ℕ) → (t : WorkerSelection) × (evaluate r other ≡ ok t)
  unfolding evaluate
  evaluate_again other =
      let e = evaluate-Evaluated r version h in
      (selection_of r other e.policy e.screened, rw (e.valid, e.registered, e.screening) refl)
