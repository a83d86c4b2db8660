-- ===== src/Lease/EvidenceWitnesses.antt =====
-- The theorems on the evidence of leases, applied to one retained authorization.
use edgeiq.Base.{
  String, ◌≡◌, refl, true, none, some, List, [], ◌∷◌, Result, ok, err, is_ok, Dict, put, empty_dict,
  String_discrete, text_eq,
}
use native.Mathlib.Decide.{ℕ_discrete}
use edgeiq.Platform.{
  DateTime_discrete, require_evidence, namespaced_digest, canonical_content, utc_time,
  required_text, sha256_hex,
}
use edgeiq.Platform.Plain.{plain, hex, fold_bytes, dump}
use edgeiq.Lease.Domain.{
  ExecutionLeaseRequest, ExecutionLeaseRecord, LeasePermission_discrete, sorted_permissions,
  unique_permissions, permitted,
}
use edgeiq.Lease.Evidence.{
  RetainedAuthorizationEvidence, RetainedAuthorizationEvidence_discrete,
  build_authorization_evidence, validate_authorization,
}
use edgeiq.Lease.Policy.{RegisteredExecutionLeasePolicy, policy_registry, policy_for}
use edgeiq.Lease.Resolve.{
  Sources, Resolved, resolve, resolve_authorization, resolve_revocation, authorization_checks,
}
use edgeiq.Lease.Resolve.Authority.{Authorizes, resolve-Authorizes, revocation_refused}
use edgeiq.Lease.State.{option_text_discrete}
use edgeiq.Lease.Scenario.{renewing, both, moment}

abbrev or_else {ℓ} : {E : Type 0} {A : Type ℓ} → A → Result E A → A
or_else a (ok b) = b
or_else a (err e) = a

or_else_lem :
    {E : Type 0} {A : Type 0} (a : A) (m : Result E A) → is_ok m ≡ true → m ≡ ok (or_else a m)
or_else_lem a (ok b) h = refl
or_else_lem a (err e) h = cc

-- The arguments of an approved authorization.
abbrev approval : RetainedAuthorizationEvidence
approval = record {
  authorization_id = "second";
  organization_id = "org";
  workload_context_id = "ctx";
  principal_id = "principal";
  plan_id = "plan";
  work_item_id = "item";
  permission_ceiling = both;
  approved = true;
  evaluated_at = moment 50;
  effective_at = moment 50;
  expires_at = moment 5000;
  history_boundary = "boundary";
  policy_id = "authorization-policy";
  policy_version = "authorization-policy.v1";
  policy_digest = "aaaaaaaaaaaaaaaaaaaaaaaaaaaaaaaaaaaaaaaaaaaaaaaaaaaaaaaaaaaaaaaa";
  decision_version = 1;
  clock_source_id = "clock";
  clock_source_version = "clock.v1";
  correlation_id = "correlation";
  causation_id = "causation";
  schema_version = "authorization-checkpoint-evidence.v1";
  component_version = "authorization-checkpoint.service.v1";
  serialization_version = "canonical-json.v1";
  configuration_version = "config";
  canonical_digest = "";
  canonical_content = [];
}

authorization : RetainedAuthorizationEvidence
authorization = or_else approval (build_authorization_evidence approval)

abbrev digest_of : List RegisteredExecutionLeasePolicy → String
digest_of [] = ""
digest_of (q ∷ qs) = q.canonical_digest

request : ExecutionLeaseRequest
request = record renewing {
  authorization_evidence_digest = some authorization.canonical_digest;
  lease_policy_digest = digest_of (or_else [] policy_registry);
}

sources : Sources
sources = record {
  authorizations = put empty_dict "second" authorization;
  revocations = empty_dict;
}

abbrev no_records : Dict String ExecutionLeaseRecord
no_records = empty_dict

abbrev blank : Resolved
blank = record {
  authorization = none;
  revocation = none;
  policy = record { policy_id = ""; policy_version = ""; canonical_digest = "" };
}

abbrev resolved : Resolved
resolved = or_else blank (resolve sources no_records request)

resolved_ok : is_ok (resolve sources no_records request) ≡ true
unfolding resolve resolve_authorization resolve_revocation authorization_checks sources request
    authorization put empty_dict String_discrete ℕ_discrete DateTime_discrete
    LeasePermission_discrete option_text_discrete RetainedAuthorizationEvidence_discrete
    build_authorization_evidence validate_authorization require_evidence namespaced_digest
    canonical_content hex fold_bytes dump utc_time required_text sha256_hex sorted_permissions
    unique_permissions permitted policy_registry policy_for
resolved_ok = refl

names_second : request.authorization_evidence_id ≡ some "second"
unfolding request
names_second = refl

resolve-Authorizes_example :
    (a : RetainedAuthorizationEvidence) × (resolved.authorization ≡ some a) × Authorizes a request
resolve-Authorizes_example =
    resolve-Authorizes sources no_records request "second" names_second
      (or_else_lem blank (resolve sources no_records request) resolved_ok)

revocation_refused_example : ¬ (
    resolve sources no_records (record renewing { revocation_evidence_id = some "directive" })
    ≡ ok blank)
revocation_refused_example =
    revocation_refused sources no_records
      (record renewing { revocation_evidence_id = some "directive" }) "directive" refl
