-- ===== src/Claim/Replay.antt =====
-- `_resolve` and `_replay` of app/runtime/work_claim/service.py, and the part of `evaluate` that reads
-- the history. The evidence sources are those of the service's default constructor.
pub mod Stable
pub mod Step
pub mod History
pub mod Prepared
pub mod Extension
pub mod Rebuilt
pub mod Fences
use edgeiq.Base.{
  ◌+◌, String, ◌&&◌, not, List, [], ◌∷◌, Result, ok, ◌>>=◌, ◌>>◌, guard, ◌==◌, text_eq, nat_eq,
  Dict, put, empty_dict, length,
}
use edgeiq.Platform.{Bytes, DateTime, Interpreter, require_evidence, before}
use edgeiq.Dispatch.Domain.{DispatchDecisionRecord, approved, outcome_eq}
use edgeiq.Claim.Domain.{
  WorkClaimError, invalid, digest_mismatch, evidence_unavailable, version_conflict,
  reconstruction_failed, replay_diverged, WorkClaimRequest, WorkClaimEvent, WorkClaimRecord,
  LineageKey, lineage_key, lineage_key_eq, bytes_eq, event_eq,
}
use edgeiq.Claim.Evidence.{RetainedClaimantEvidence, claimant_source, dispatch_source}
use edgeiq.Claim.Policy.{RegisteredWorkClaimPolicy, WorkClaimDerivedState, initial_state, decide}
use edgeiq.Claim.Policy.Registry.{policy_for}
use edgeiq.Claim.Serialization.{canonical_input_content, lineage_identity, verify_recorded_content}
use edgeiq.Claim.Serialization.Build.{build_work_claim_event}
use edgeiq.Claim.State.{advance_state}

pub record Sources : Type 0 where
  pub dispatches : Dict String DispatchDecisionRecord
  pub claimants : Dict String RetainedClaimantEvidence

-- What `_resolve` returns.
pub record Resolved : Type 0 where
  pub dispatch : DispatchDecisionRecord
  pub claimant : RetainedClaimantEvidence
  pub policy : RegisteredWorkClaimPolicy

-- The tests of `_resolve` on what the sources returned.
unfoldable pub resolve_checks :
    WorkClaimRequest
    → DispatchDecisionRecord
    → RetainedClaimantEvidence
    → Result WorkClaimError (Unit {0})
resolve_checks request dispatch claimant = do
  let d = dispatch.decision
  guard (d.canonical_decision_digest == request.dispatch_decision_digest) digest_mismatch
  guard (claimant.canonical_digest == request.claimant_evidence_digest) digest_mismatch
  guard (d.outcome == approved) invalid
  guard (d.plan_reference.artifact_id == request.plan_id && d.work_item_id == request.work_item_id)
      invalid
  guard (d.selected_candidate_id == request.selected_candidate_id) invalid
  guard (d.reconstruction_metadata.history_boundary == request.evidence_boundary) invalid
  guard
      (not (before request.semantic_at claimant.effective_at)
        && not (before claimant.expires_at request.semantic_at))
      invalid

module _ ⦃p : Interpreter⦄ where
  unfoldable pub resolve : Sources → WorkClaimRequest → Result WorkClaimError Resolved
  resolve sources request = do
    dispatch ←
        require_evidence dispatch_source evidence_unavailable sources.dispatches
          request.dispatch_decision_id request.organization_id request.workload_context_id
    claimant ←
        require_evidence claimant_source evidence_unavailable sources.claimants
          request.claimant_evidence_id request.organization_id request.workload_context_id
    resolve_checks request dispatch claimant
    policy ←
        policy_for request.claim_policy_id request.claim_policy_version request.claim_policy_digest
    ok (record { dispatch = dispatch; claimant = claimant; policy = policy })

  -- The decision and the built event in a derived state: the part that `evaluate` and `_replay` share.
  unfoldable pub decide_and_build :
      Resolved
      → WorkClaimRequest
      → WorkClaimDerivedState
      → String
      → DateTime
      → Result WorkClaimError (WorkClaimEvent × Bytes × Bytes)
  decide_and_build e request state identity recorded_at = do
    d ← decide e.policy request e.dispatch e.claimant state
    build_work_claim_event request e.dispatch e.claimant e.policy d (state.lineage_version + 1)
        identity recorded_at

  -- One round of the loop of `_replay`: the rebuilt event and the state after it.
  unfoldable pub replay_record :
      Sources
      → LineageKey
      → WorkClaimDerivedState
      → WorkClaimRecord
      → Result WorkClaimError (WorkClaimDerivedState × WorkClaimEvent)
  replay_record sources first state r = do
    guard (lineage_key r.request == first) reconstruction_failed
    lineage ← lineage_identity (lineage_key r.request)
    guard (r.event.lineage_id == lineage) reconstruction_failed
    guard (r.request.expected_lineage_version == state.lineage_version) reconstruction_failed
    verify_recorded_content r.event r.canonical_input_content r.canonical_event_content
    e ← resolve sources r.request
    expected_input ← canonical_input_content r.request e.dispatch e.claimant e.policy
    guard (expected_input == r.canonical_input_content) digest_mismatch
    (rebuilt, rebuilt_input, rebuilt_event) ←
        decide_and_build e r.request state r.idempotency_identity r.event.recorded_at
    guard
        (rebuilt_input == r.canonical_input_content
          && rebuilt_event == r.canonical_event_content
          && rebuilt == r.event)
        replay_diverged
    state' ← advance_state state rebuilt
    ok (state', rebuilt)

  unfoldable pub replay_from :
      Sources
      → LineageKey
      → WorkClaimDerivedState
      → Dict String WorkClaimEvent
      → List WorkClaimRecord
      → Result WorkClaimError (WorkClaimDerivedState × Dict String WorkClaimEvent)
  replay_from sources first state rebuilt_by_id [] = ok (state, rebuilt_by_id)
  replay_from sources first state rebuilt_by_id (r ∷ rs) = do
    (state', rebuilt) ← replay_record sources first state r
    replay_from sources first state' (put rebuilt_by_id rebuilt.event_id rebuilt) rs

  -- `_replay`; the loop's first test compares with `history[0]`.
  unfoldable pub replay :
      Sources
      → List WorkClaimRecord
      → Result WorkClaimError (WorkClaimDerivedState × Dict String WorkClaimEvent)
  replay sources [] = ok (initial_state, empty_dict)
  replay sources (r ∷ rs) =
      replay_from sources (lineage_key r.request) initial_state empty_dict (r ∷ rs)

  -- `evaluate` from its read of the history to the record that it appends. The stages of `evaluate`
  -- read the repository at different times, so each takes the state that it reads.
  unfoldable pub prepare :
      Sources
      → List WorkClaimRecord
      → WorkClaimRequest
      → Resolved
      → String
      → DateTime
      → Result WorkClaimError WorkClaimRecord
  prepare sources history request e identity now = do
    guard (request.expected_lineage_version == length history) version_conflict
    (state, _) ← replay sources history
    d ← decide e.policy request e.dispatch e.claimant state
    (event, input_content, event_content) ←
        build_work_claim_event request e.dispatch e.claimant e.policy d
          (request.expected_lineage_version + 1) identity now
    ok (record {
      request = request;
      event = event;
      idempotency_identity = identity;
      canonical_input_content = input_content;
      canonical_event_content = event_content;
    })
