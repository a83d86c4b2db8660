-- ===== src/Selection/Evaluator/Screening.antt =====
-- `_validate_request`, `_exclusion_reasons` and the loop of `evaluate` over the readiness evidence.
use edgeiq.Base.{
  ℕ, String, Bool, true, false, not, ◌&&◌, ◌||◌, Option, none, some, List, [], ◌∷◌, ◌++◌, Result,
  ok, ◌>>=◌, ◌>>◌, guard, ◌==◌, ◌/=◌, text_eq, map, all, any,
}
use edgeiq.Base.Sorting.{sorted_by}
use edgeiq.Platform.{Interpreter, before, text_le, unique_texts}
use edgeiq.Selection.Domain.{
  Formats, SelectionError, invalid, WorkerReadinessEvidence, WorkerSelectionRequest, ScoreComponent,
  WorkerSelectionExclusion,
}
use edgeiq.Selection.Policy.{ScoringPolicy, score_components, total_score}
use edgeiq.Selection.Serialization.{canonical_hash, exclusion_document}

unfoldable pub validate_request : WorkerSelectionRequest → Result SelectionError (Unit {0})
validate_request r = do
  guard
      (r.organization_id /= ""
        && r.workload_context_id /= ""
        && r.execution_plan_reference /= ""
        && r.workload_requirements_reference /= ""
        && r.policy_constraints_reference /= ""
        && r.history_boundary /= "")
      invalid
  guard (unique_texts (map (λ (e : WorkerReadinessEvidence). e.worker_id) r.readiness)) invalid

abbrev when : Bool → String → List String
when true reason = reason ∷ []
when false reason = []

abbrev policy_reasons : Option Bool → List String
policy_reasons none = "HARD_POLICY_EVIDENCE_UNAVAILABLE" ∷ []
policy_reasons (some true) = []
policy_reasons (some false) = "HARD_POLICY_FILTERED" ∷ []

-- `set(required).issubset(capabilities)`.
unfoldable pub covered : List String → List String → Bool
covered required capabilities = all (λ c. any (λ k. c == k) capabilities) required

abbrev pub reasons_found : WorkerSelectionRequest → WorkerReadinessEvidence → List String
reasons_found r e =
    when (e.organization_id /= r.organization_id || e.workload_context_id /= r.workload_context_id)
      "ORGANIZATION_OR_WORKLOAD_MISMATCH"
    ++ (when (e.canonical_hash == "" || e.reference == "") "REQUIRED_EVIDENCE_INVALID"
        ++ (when (e.schema_version /= "worker-readiness.v1") "READINESS_VERSION_UNSUPPORTED"
            ++ (when (before e.expires_at r.evaluation_boundary) "READINESS_EXPIRED"
                ++ (when (not e.ready) "WORKER_NOT_READY"
                    ++ (when (not (covered r.required_capabilities e.capabilities))
                          "REQUIRED_CAPABILITY_MISSING"
                        ++ (policy_reasons e.hard_policy_pass
                            ++ when (not e.evidence_consistent) "CONTRADICTORY_EVIDENCE"))))))

unfoldable pub exclusion_reasons : WorkerSelectionRequest → WorkerReadinessEvidence → List String
exclusion_reasons r e = sorted_by text_le (reasons_found r e)

-- An item of `provisional`.
pub record Scored : Type 0 where
  pub evidence : WorkerReadinessEvidence
  pub components : List ScoreComponent
  pub total : ℕ

pub record Screened : Type 0 where
  pub provisional : List Scored
  pub exclusions : List WorkerSelectionExclusion

module _ ⦃p : Interpreter⦄ ⦃f : Formats⦄ where
  unfoldable pub exclusion : WorkerReadinessEvidence → List String → WorkerSelectionExclusion
  exclusion e reasons =
      let bare : WorkerSelectionExclusion = record {
        worker_id = e.worker_id;
        readiness_reference = e.reference;
        reason_codes = reasons;
        evidence_references = e.evidence_references;
        canonical_hash = "";
      } in
      record bare {
        canonical_hash = canonical_hash "worker-selection-exclusion" (exclusion_document bare);
      }

  -- One round, on the worker's reasons: the worker is scored or excluded, before the others.
  unfoldable pub screen_one :
      ScoringPolicy
      → WorkerReadinessEvidence
      → List String
      → Result SelectionError Screened
      → Result SelectionError Screened
  screen_one policy e [] rest = do
    components ← score_components e.scores e.evidence_references policy
    s ← rest
    ok (record {
      provisional =
          record { evidence = e; components = components; total = total_score components }
          ∷ s.provisional;
      exclusions = s.exclusions;
    })
  screen_one policy e (reason ∷ reasons) rest = do
    s ← rest
    ok (record s { exclusions = exclusion e (reason ∷ reasons) ∷ s.exclusions })

  unfoldable pub screen :
      WorkerSelectionRequest
      → ScoringPolicy
      → List WorkerReadinessEvidence
      → Result SelectionError Screened
  unfolding screen_one
  screen r policy [] = ok (record { provisional = []; exclusions = [] })
  screen r policy (e ∷ es) = screen_one policy e (exclusion_reasons r e) (screen r policy es)
