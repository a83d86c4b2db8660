-- ===== src/Claim/Domain/Event.antt =====
-- `WorkClaimEvent.__post_init__`.
use edgeiq.Base.{
  ℕ, String, Bool, true, false, not, ◌||◌, Option, none, some, List, [], ◌∷◌, Result, ok, ◌>>=◌,
  ◌>>◌, guard, map_result, ltb, ◌==◌, ◌/=◌, text_eq, is_some, is_none,
}
use edgeiq.Platform.{
  Interpreter, required_text, optional_text, sha256_hex, utc_time, optional_utc_time, sorted_texts,
  unique_texts,
}
use edgeiq.Claim.Domain.Types.{
  WorkClaimError, invalid, version_unsupported, WorkClaimEvent, claim_accepted, event_type_eq,
  supported_work_claim_schema_version,
}

abbrev no_texts : List String → Bool
no_texts [] = true
no_texts (s ∷ ss) = false

-- `fence is not None and fence < 1` does not hold.
abbrev fence_positive : Option ℕ → Bool
fence_positive none = true
fence_positive (some f) = ltb 0 f

module _ ⦃p : Interpreter⦄ where
  -- The checks of `event_type`, `lineage_version`, `generation`, `fence` and `reason_codes`, with the
  -- sorted reasons.
  event_checks : WorkClaimEvent → Result WorkClaimError (List String)
  event_checks e = do
    guard (ltb 0 e.lineage_version) invalid
    guard (ltb 0 e.generation) invalid
    guard (fence_positive e.fence) invalid
    guard (e.event_type /= claim_accepted || is_some e.fence) invalid
    guard (e.event_type == claim_accepted || is_none e.fence) invalid
    reasons ← map_result (required_text invalid) e.reason_codes
    guard (not (no_texts reasons)) invalid
    guard (unique_texts reasons) invalid
    ok (sorted_texts reasons)

  -- All of the constructor but `recorded_at` and `schema_version`, which it reads last.
  event_content_fields : WorkClaimEvent → Result WorkClaimError WorkClaimEvent
  unfolding event_checks
  event_content_fields e = do
    event_id' ← sha256_hex invalid e.event_id
    lineage ← sha256_hex invalid e.lineage_id
    input_digest ← sha256_hex invalid e.canonical_input_digest
    event_digest ← sha256_hex invalid e.canonical_event_digest
    identity ← sha256_hex invalid e.idempotency_identity
    organization ← required_text invalid e.organization_id
    workload ← required_text invalid e.workload_context_id
    plan ← required_text invalid e.plan_id
    item ← required_text invalid e.work_item_id
    claimant ← required_text invalid e.claimant_id
    candidate ← required_text invalid e.selected_candidate_id
    policy_version ← required_text invalid e.claim_policy_version
    reasons ← event_checks e
    semantic ← utc_time invalid e.semantic_at
    expires ← optional_utc_time invalid e.expires_at
    reason ← optional_text invalid e.release_reason
    causal ← optional_text invalid e.causal_event_id
    ok (record e {
      event_id = event_id';
      lineage_id = lineage;
      organization_id = organization;
      workload_context_id = workload;
      plan_id = plan;
      work_item_id = item;
      reason_codes = reasons;
      claimant_id = claimant;
      selected_candidate_id = candidate;
      claim_policy_version = policy_version;
      semantic_at = semantic;
      expires_at = expires;
      release_reason = reason;
      causal_event_id = causal;
      canonical_input_digest = input_digest;
      canonical_event_digest = event_digest;
      idempotency_identity = identity;
    })

  unfoldable pub work_claim_event : WorkClaimEvent → Result WorkClaimError WorkClaimEvent
  unfolding event_content_fields
  work_claim_event e = do
    n ← event_content_fields e
    recorded ← utc_time invalid e.recorded_at
    guard (e.schema_version == supported_work_claim_schema_version) version_unsupported
    ok (record n { recorded_at = recorded })
