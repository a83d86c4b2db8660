-- ===== src/Selection/Evaluator/Eligibility.antt =====
-- What keeps a worker from being excluded.
use edgeiq.Base.{
  ◌≡◌, ◌≤◌, refl, ◌↔◌, String, true, ◌==◌, text_eq, some, List, [], ◌∷◌, ap, arith, All, In, any,
  Bool-cases, inl, inr, ==→≡,
}
use edgeiq.Base.Sorting.{sorted_by, insert_by}
use edgeiq.Platform.{instant, text_le}
use edgeiq.Selection.Domain.{WorkerReadinessEvidence, WorkerSelectionRequest}
use edgeiq.Selection.Evaluator.{reasons_found, exclusion_reasons, covered}

insert_by_nonempty : (x : String) (js : List String) → ¬ (insert_by text_le x js ≡ [])
unfolding insert_by
insert_by_nonempty x [] h = cc
insert_by_nonempty x (j ∷ js) h = ground arith

sorted_by-eq-nil : (xs : List String) → sorted_by text_le xs ≡ [] → xs ≡ []
unfolding sorted_by
sorted_by-eq-nil [] h = refl
sorted_by-eq-nil (x ∷ xs) h = absurd (insert_by_nonempty x (sorted_by text_le xs) h)

any-In : (c : String) (ks : List String) → any (λ k. c == k) ks ≡ true → In c ks
any-In c [] h = cc
any-In c (k ∷ ks) h = elim (Bool-cases (c == k)) [
  | inl same ↦ In.here (==→≡ c k same)
  | inr other ↦ In.there (any-In c ks (ground (arith, other)))
]

In-any : (c : String) (ks : List String) → In c ks → any (λ k. c == k) ks ≡ true
In-any c [] i = elim i [ ]
In-any c (k ∷ ks) (In.here e) = ground (arith, e)
In-any c (k ∷ ks) (In.there i) = ground (arith, In-any c ks i)

covered-All : (cs ks : List String) → covered cs ks ≡ true → All (λ c. In c ks) cs
unfolding covered
covered-All [] ks h = tt
covered-All (c ∷ cs) ks h = (any-In c ks (ground (arith)), covered-All cs ks (ground arith))

All-covered : (cs ks : List String) → All (λ c. In c ks) cs → covered cs ks ≡ true
unfolding covered
All-covered [] ks h = refl
All-covered (c ∷ cs) ks h = ground (arith, In-any c ks h.0, All-covered cs ks h.1)

-- The evidence is of the request's organization and workload, has a hash and a reference that are not
-- empty, is of the one known schema, not
-- expired, ready, with every capability that is required, passed by the hard policy and consistent.
pub record Eligible (r : WorkerSelectionRequest) (e : WorkerReadinessEvidence) : Type 0 where
  pub organization : e.organization_id ≡ r.organization_id
  pub workload : e.workload_context_id ≡ r.workload_context_id
  pub hashed : ¬ (e.canonical_hash ≡ "")
  pub referenced : ¬ (e.reference ≡ "")
  pub schema : e.schema_version ≡ "worker-readiness.v1"
  pub fresh : instant r.evaluation_boundary ≤ instant e.expires_at
  pub is_ready : e.ready ≡ true
  pub capable : All (λ c. In c e.capabilities) r.required_capabilities
  pub passed : e.hard_policy_pass ≡ some true
  pub consistent : e.evidence_consistent ≡ true

eligible :
    (r : WorkerSelectionRequest) (e : WorkerReadinessEvidence)
    → reasons_found r e ≡ []
    → Eligible r e
eligible r e h = record {
  organization = ground arith;
  workload = ground arith;
  hashed = ground arith;
  referenced = ground arith;
  schema = ground arith;
  fresh = ground arith;
  is_ready = ground arith;
  capable = covered-All r.required_capabilities e.capabilities (ground arith);
  passed = ground arith;
  consistent = ground arith;
}

unrefused :
    (r : WorkerSelectionRequest) (e : WorkerReadinessEvidence)
    → Eligible r e
    → reasons_found r e ≡ []
unrefused r e h = ground (arith, All-covered r.required_capabilities e.capabilities h.capable)

-- There is no reason against a worker exactly when its evidence is eligible. Its canonical hash only has to
-- be non-empty: a hash that is not that of the evidence is no reason.
pub exclusion_reasons-Eligible :
    (r : WorkerSelectionRequest) (e : WorkerReadinessEvidence)
    → exclusion_reasons r e ≡ [] ↔ Eligible r e
unfolding exclusion_reasons sorted_by
exclusion_reasons-Eligible r e = (
  λ h. eligible r e (sorted_by-eq-nil (reasons_found r e) h),
  λ h. ap (sorted_by text_le) (unrefused r e h),
)
