-- ===== src/Lease/Policy.antt =====
-- app/runtime/execution_lease/policy.py: the registered policy and its lookup. The registry is built
-- when the module is loaded: an error there is an error of every lookup.
use edgeiq.Base.{
  String, ◌&&◌, List, [], ◌∷◌, Result, ok, err, ◌>>=◌, ◌>>◌, guard, ◌==◌, text_eq, if◌then◌else◌,
}
use edgeiq.Platform.{
  Interpreter, text, array, texts, document, canonical_content, namespaced_digest,
}
use edgeiq.Lease.Domain.{ExecutionLeaseError, invalid, version_unsupported, digest_mismatch}

abbrev pub policy_namespace : String
policy_namespace = "edgeiq.execution-lease-policy.v1"

pub record RegisteredExecutionLeasePolicy : Type 0 where
  pub policy_id : String
  pub policy_version : String
  pub canonical_digest : String

abbrev matching :
    String → String → List RegisteredExecutionLeasePolicy → List RegisteredExecutionLeasePolicy
matching policy_id policy_version [] = []
matching policy_id policy_version (q ∷ qs) =
    let rest = matching policy_id policy_version qs in
    if q.policy_id == policy_id && q.policy_version == policy_version then q ∷ rest else rest

abbrev only :
    List RegisteredExecutionLeasePolicy → Result ExecutionLeaseError RegisteredExecutionLeasePolicy
only (q ∷ []) = ok q
only _ = err version_unsupported

module _ ⦃p : Interpreter⦄ where
  -- `_policy`.
  registered_policy : String → String → Result ExecutionLeaseError RegisteredExecutionLeasePolicy
  registered_policy policy_id policy_version = do
    content ← canonical_content invalid (
        document (
          ("policy_id", text policy_id)
          ∷ ("policy_version", text policy_version)
          ∷ (
            "rules",
            array (
                texts (
                  "one_authoritative_lineage" ∷ "owner_assigned_generation"
                  ∷ "same_generation_renewal" ∷ "active_generation_supersession"
                  ∷ "revocation_authority_deferred_fail_closed" ∷ "half_open_applicability"
                  ∷ "no_post_revocation_generation" ∷ [])),
          )
          ∷ []))
    ok (record {
      policy_id = policy_id;
      policy_version = policy_version;
      canonical_digest = namespaced_digest policy_namespace content;
    })

  -- `POLICY_REGISTRY`, with `EXECUTION_LEASE_POLICY_V1`.
  unfoldable pub policy_registry : Result ExecutionLeaseError (List RegisteredExecutionLeasePolicy)
  unfolding registered_policy
  policy_registry = do
    v1 ← registered_policy "execution-lease-policy" "execution-lease-policy.v1"
    ok (v1 ∷ [])

  unfoldable pub policy_for :
      String → String → String → Result ExecutionLeaseError RegisteredExecutionLeasePolicy
  unfolding policy_registry
  policy_for policy_id policy_version canonical_digest = do
    registry ← policy_registry
    policy ← only (matching policy_id policy_version registry)
    guard (policy.canonical_digest == canonical_digest) digest_mismatch
    ok policy
