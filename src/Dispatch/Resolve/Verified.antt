-- ===== src/Dispatch/Resolve/Verified.antt =====
-- What the evidence that was resolved for a request is.
use edgeiq.Base.{
  Dict, ◌≡◌, String, true, List, [], ◌∷◌, ok, guard, guard-eq-ok, >>=-eq-ok, ok-injective, arith,
  In, ◌==◌, text_eq, ==→≡, sym, ap, ◌∙◌, Bool-cases, inl, inr,
}
use edgeiq.Platform.{Interpreter, EvidenceReference, require_evidence}
use edgeiq.Dispatch.Domain.{DispatchRequest, evidence_missing, digest_mismatch, invalid}
use edgeiq.Dispatch.Evidence.{
  RetainedReadinessEvidence, RetainedSelectionCandidate, RetainedSelectionEvidence,
  readiness_source,
}
use edgeiq.Dispatch.Policy.{VerifiedDispatchEvidence, RegisteredDispatchPolicy}
use edgeiq.Dispatch.Resolve.{
  Sources, member, matching, only, selected_candidate, reference_checks, require_readiness, resolve,
}
use edgeiq.Dispatch.Resolve.Steps.{resolve-Steps}

member-In : (item : String) (ids : List String) → member item ids ≡ true → In item ids
member-In item [] h = cc
member-In item (i ∷ ids) h = elim (Bool-cases (item == i)) [
  | inl same ↦ In.here (==→≡ item i same)
  | inr other ↦ In.there (member-In item ids (ground (arith, other)))
]

first_or_later :
    (id : String) (x : RetainedSelectionCandidate) (xs : List RetainedSelectionCandidate)
    (c : RetainedSelectionCandidate)
    → x.candidate_id ≡ id
    → (In c (matching id xs) → In c xs × (c.candidate_id ≡ id))
    → In c (x ∷ matching id xs)
    → In c (x ∷ xs) × (c.candidate_id ≡ id)
first_or_later id x xs c same later (In.here e) =
    (In.here e, ap (λ (z : RetainedSelectionCandidate). z.candidate_id) e ∙ same)
first_or_later id x xs c same later (In.there i) =
    let (place, named) = later i in (In.there place, named)

-- The candidates with an identity, among which one was found.
matching-In :
    (id : String) (cs : List RetainedSelectionCandidate) (c : RetainedSelectionCandidate)
    → In c (matching id cs)
    → In c cs × (c.candidate_id ≡ id)
matching-In id [] c i = elim i [ ]
matching-In id (x ∷ xs) c i = elim (Bool-cases (x.candidate_id == id)) [
  | inl same ↦
      first_or_later id x xs c (==→≡ x.candidate_id id same) (matching-In id xs c) (rw same at i)
  | inr other ↦ let (place, named) = matching-In id xs c (rw other at i) in (In.there place, named)
]

only-In :
    (cs : List RetainedSelectionCandidate) (c : RetainedSelectionCandidate)
    → only cs ≡ ok c
    → In c cs
only-In [] c h = cc
only-In (x ∷ []) c h = In.here (sym (ok-injective h))
only-In (x ∷ y ∷ xs) c h = cc

selected-In :
    (id : String) (selection : RetainedSelectionEvidence) {c : RetainedSelectionCandidate}
    → selected_candidate id selection ≡ ok c
    → In c selection.candidates × (c.candidate_id ≡ id)
unfolding selected_candidate
selected-In id selection {c} h =
    matching-In id selection.candidates c (only-In (matching id selection.candidates) c h)

-- The readiness evidence that references name, in their order.
abbrev pub Named : List EvidenceReference → List RetainedReadinessEvidence → Type 0
Named [] [] = Unit
Named [] (r ∷ rs) = ⊥
Named (x ∷ xs) [] = ⊥
Named (x ∷ xs) (r ∷ rs) = (r.canonical_digest ≡ x.canonical_digest) × Named xs rs

-- The evidence is what the request names.
pub record Verified (request : DispatchRequest) (e : VerifiedDispatchEvidence) : Type 0 where
  pub same_request : e.request ≡ request
  pub plan_digest : e.plan.canonical_digest ≡ request.plan_digest
  pub selection_digest : e.selection.canonical_digest ≡ request.selection_digest
  pub lease_digest : e.lease.canonical_digest ≡ request.lease_digest
  pub planned : In request.work_item_id e.plan.work_item_ids
  pub leased : In request.work_item_id e.lease.work_item_ids
  pub same_plan : e.lease.plan_id ≡ e.plan.plan_id
  pub selected_for : e.selection.plan_reference.canonical_digest ≡ e.plan.canonical_digest
  pub candidate : In e.candidate e.selection.candidates
  pub candidate_id : e.candidate.candidate_id ≡ request.selected_candidate_id
  pub boundary : e.selection.evaluation_boundary ≡ request.evaluation_boundary
  pub readiness : Named e.candidate.readiness_references e.readiness

module _ ⦃p : Interpreter⦄ where
  require_readiness-Named :
      (items : Dict String RetainedReadinessEvidence) (request : DispatchRequest)
      (xs : List EvidenceReference) {rs : List RetainedReadinessEvidence}
      → require_readiness items request xs ≡ ok rs
      → Named xs rs
  unfolding require_readiness
  require_readiness-Named items request [] h = rw (sym (ok-injective h)) tt
  require_readiness-Named items request (x ∷ xs) h =
      let (retained, found, h1) =
        >>=-eq-ok
          (require_evidence readiness_source evidence_missing items x.artifact_id
            request.organization_id request.workload_context_id)
          _ h in
      let (u, matched, h2) =
        >>=-eq-ok (guard (retained.canonical_digest == x.canonical_digest) digest_mismatch) _ h1 in
      let (rest, later, h3) = >>=-eq-ok (require_readiness items request xs) _ h2 in
      rw (sym (ok-injective h3)) (
        ==→≡ retained.canonical_digest x.canonical_digest (guard-eq-ok _ digest_mismatch matched),
        require_readiness-Named items request xs later,
      )

  abbrev Checked : DispatchRequest → VerifiedDispatchEvidence → Type 0
  Checked request e =
      (e.plan.canonical_digest ≡ request.plan_digest)
      × (e.selection.canonical_digest ≡ request.selection_digest)
      × (e.lease.canonical_digest ≡ request.lease_digest)
      × (member request.work_item_id e.plan.work_item_ids ≡ true)
      × (e.selection.plan_reference.canonical_digest ≡ e.plan.canonical_digest)

  reference_checks-Checked :
      (request : DispatchRequest) (e : VerifiedDispatchEvidence)
      → reference_checks request e.plan e.selection e.lease ≡ ok tt
      → Checked request e
  unfolding reference_checks
  reference_checks-Checked request e h = ground arith

  -- Resolved evidence is what the request names: the digests of plan, selection and lease are the request's,
  -- the work item is of the plan and of the lease, the lease and the selection are for the plan, the
  -- candidate is the selection's one with the request's identity, the evidence boundary is the request's,
  -- and the readiness evidence has the digests that the candidate references.
  pub resolve-Verified :
      (sources : Sources) (request : DispatchRequest) {e : VerifiedDispatchEvidence}
      {policy : RegisteredDispatchPolicy}
      → resolve sources request ≡ ok (e, policy)
      → Verified request e
  resolve-Verified sources request {e} h =
      let s = resolve-Steps sources request h in
      let (a, b, c, d, f) = reference_checks-Checked request e s.checks in
      let (place, named) = selected-In request.selected_candidate_id e.selection s.candidate in
      record {
        same_request = s.same_request;
        plan_digest = a;
        selection_digest = b;
        lease_digest = c;
        planned = member-In request.work_item_id e.plan.work_item_ids d;
        leased =
            member-In request.work_item_id e.lease.work_item_ids (guard-eq-ok _ invalid s.leased);
        same_plan = ==→≡ _ _ (guard-eq-ok _ invalid s.same_plan);
        selected_for = f;
        candidate = place;
        candidate_id = named;
        boundary = ==→≡ _ _ (guard-eq-ok _ invalid s.boundary);
        readiness =
            require_readiness-Named sources.readiness request e.candidate.readiness_references
              s.readiness;
      }
