-- ===== src/Selection/Domain/Order.antt =====
-- The order in which a caller hands over the readiness evidence.
use edgeiq.Base.{◌≡◌, refl, List}
use mathlib.Core.List.{Permᴰ}
use edgeiq.Base.Sorting.{Pairs, Apart, sorted_by-eq, IsOrder, Pairs-map}
use edgeiq.Platform.TextOrder.{text_le-IsOrder, text_le_antisymm}
use edgeiq.Selection.Domain.{
  WorkerReadinessEvidence, WorkerSelectionRequest, by_worker, worker_selection_request,
}

by_worker-IsOrder : IsOrder by_worker
by_worker-IsOrder = record {
  total = λ a b h. text_le-IsOrder.total a.worker_id b.worker_id h;
  trans = λ a b c h k. text_le-IsOrder.trans a.worker_id b.worker_id c.worker_id h k;
}

-- Requests that list the evidence of distinct workers in different orders are made the same request.
pub worker_selection_request-Permᴰ :
    (r : WorkerSelectionRequest) (es : List WorkerReadinessEvidence)
    → Permᴰ r.readiness es
    → Pairs
        (λ (a : WorkerReadinessEvidence) (b : WorkerReadinessEvidence).
          ¬ (a.worker_id ≡ b.worker_id))
        r.readiness
    → worker_selection_request (record r { readiness = es }) ≡ worker_selection_request r
unfolding worker_selection_request
worker_selection_request-Permᴰ r es d distinct =
    let apart =
      Pairs-map _ (Apart by_worker) r.readiness
        (λ a b ne (h, k). ne (text_le_antisymm a.worker_id b.worker_id h k)) distinct in
    rw (sorted_by-eq by_worker by_worker-IsOrder d apart) refl
