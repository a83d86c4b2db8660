-- ===== src/Selection/Domain/Inputs.antt =====
-- `canonical_uuid`, `as_utc`, `immutable_mapping`, and the `__post_init__` of the two inputs.
use edgeiq.Base.{
  String, Bool, Option, none, some, Result, ok, err, ◌>>=◌, ◌>>◌, guard, ◌==◌, text_eq,
  if◌then◌else◌,
}
use edgeiq.Base.Sorting.{sorted_by}
use edgeiq.Platform.{utc_time, text_le}
use edgeiq.Selection.Domain.Types.{
  Formats, SelectionError, invalid, WorkerReadinessEvidence, WorkerSelectionRequest,
}

-- The order of the items of a mapping: by key, then by value.
item_le : String × String → String × String → Bool
item_le (k, v) (j, w) = if k == j then text_le v w else text_le k j

-- `sorted(readiness, key=lambda item: item.worker_id)`.
abbrev pub by_worker : WorkerReadinessEvidence → WorkerReadinessEvidence → Bool
by_worker a b = text_le a.worker_id b.worker_id

abbrev uuid_or_error : Option String → Result SelectionError String
uuid_or_error none = err invalid
uuid_or_error (some canonical) = ok canonical

module _ ⦃f : Formats⦄ where
  unfoldable pub canonical_uuid : String → Result SelectionError String
  canonical_uuid value = do
    canonical ← uuid_or_error (f.uuid value)
    guard (value == canonical) invalid
    ok canonical

  unfoldable pub worker_readiness_evidence :
      WorkerReadinessEvidence → Result SelectionError WorkerReadinessEvidence
  unfolding canonical_uuid item_le
  worker_readiness_evidence e = do
    worker ← canonical_uuid e.worker_id
    evaluated ← utc_time invalid e.evaluated_at
    expires ← utc_time invalid e.expires_at
    ok (record e {
      worker_id = worker;
      evaluated_at = evaluated;
      expires_at = expires;
      capabilities = sorted_by text_le e.capabilities;
      evidence_references = sorted_by text_le e.evidence_references;
      scores = sorted_by item_le e.scores;
    })

unfoldable pub worker_selection_request :
    WorkerSelectionRequest → Result SelectionError WorkerSelectionRequest
worker_selection_request r = do
  boundary ← utc_time invalid r.evaluation_boundary
  ok (record r {
    evaluation_boundary = boundary;
    required_capabilities = sorted_by text_le r.required_capabilities;
    readiness = sorted_by by_worker r.readiness;
    preference_evidence_references = sorted_by text_le r.preference_evidence_references;
  })
