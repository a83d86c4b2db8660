-- ===== src/Claim/Policy/Registry.antt =====
-- app/runtime/work_claim/policy.py: the registered policy and its lookup. The registry is built when
-- the module is loaded: an error there is an error of every lookup.
use edgeiq.Base.{
  ℕ, String, ◌&&◌, List, [], ◌∷◌, Result, ok, err, ◌>>=◌, ◌>>◌, guard, ◌==◌, text_eq, if◌then◌else◌,
}
use edgeiq.Platform.{
  Interpreter, text, int, array, texts, document, canonical_content, namespaced_digest,
}
use edgeiq.Claim.Domain.{WorkClaimError, invalid, version_unsupported, digest_mismatch}
use edgeiq.Claim.Policy.{RegisteredWorkClaimPolicy}

abbrev pub policy_namespace : String
policy_namespace = "edgeiq.work-claim-policy.v1"

abbrev matching : String → String → List RegisteredWorkClaimPolicy → List RegisteredWorkClaimPolicy
matching policy_id policy_version [] = []
matching policy_id policy_version (q ∷ qs) =
    let rest = matching policy_id policy_version qs in
    if q.policy_id == policy_id && q.policy_version == policy_version then q ∷ rest else rest

abbrev only : List RegisteredWorkClaimPolicy → Result WorkClaimError RegisteredWorkClaimPolicy
only (q ∷ []) = ok q
only _ = err version_unsupported

module _ ⦃p : Interpreter⦄ where
  -- `_policy`.
  registered_policy : String → String → ℕ → Result WorkClaimError RegisteredWorkClaimPolicy
  registered_policy policy_id policy_version claim_ttl_seconds = do
    content ← canonical_content invalid (
        document (
          ("claim_ttl_seconds", int claim_ttl_seconds)
          ∷ ("policy_id", text policy_id)
          ∷ ("policy_version", text policy_version)
          ∷ (
            "rules",
            array (
                texts (
                  "one_lineage" ∷ "owner_assigned_generation" ∷ "one_acceptance_per_generation"
                  ∷ "acceptance_only_fence" ∷ "claimant_candidate_equivalence"
                  ∷ "retained_semantic_expiry" ∷ "current_claimant_release" ∷ [])),
          )
          ∷ []))
    ok (record {
      policy_id = policy_id;
      policy_version = policy_version;
      claim_ttl_seconds = claim_ttl_seconds;
      canonical_digest = namespaced_digest policy_namespace content;
    })

  -- `POLICY_REGISTRY`, with `WORK_CLAIM_POLICY_V1`.
  unfoldable pub policy_registry : Result WorkClaimError (List RegisteredWorkClaimPolicy)
  unfolding registered_policy
  policy_registry = do
    v1 ← registered_policy "work-claim-policy" "work-claim-policy.v1" 300
    ok (v1 ∷ [])

  unfoldable pub policy_for :
      String → String → String → Result WorkClaimError RegisteredWorkClaimPolicy
  unfolding policy_registry
  policy_for policy_id policy_version canonical_digest = do
    registry ← policy_registry
    policy ← only (matching policy_id policy_version registry)
    guard (policy.canonical_digest == canonical_digest) digest_mismatch
    ok policy
