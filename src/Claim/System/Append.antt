-- ===== src/Claim/System/Append.antt =====
-- Histories are append-only, and `evaluate` alone is a run of the system's steps.
use edgeiq.Base.{
  String, ◌≡◌, refl, ap, sym, Option, none, some, ◌∷◌, ok, >>=-eq-ok, ok-injective, here,
}
use edgeiq.Platform.{DateTime, Interpreter}
use edgeiq.Claim.Domain.{WorkClaimRequest, WorkClaimEvent, WorkClaimEvaluationResult, lineage_key}
use edgeiq.Claim.Serialization.{canonical_input_content, work_claim_idempotency_identity}
use edgeiq.Claim.Repository.{RepositoryState, stream, idempotent, append}
use edgeiq.Claim.Repository.Growth.{Grows, Grows-refl, Grows-trans, append-Grows}
use edgeiq.Claim.Replay.{Resolved, resolve, prepare}
use edgeiq.Claim.Replay.Prepared.{prepare-Parts}
use edgeiq.Claim.Service.{evaluate, evaluate_new}
use edgeiq.Claim.System.{
  Pending, System, Step, retain_dispatch, retain_claimant, begin, finish, Reach, stay, next,
}

module _ ⦃p : Interpreter⦄ where
  Step-Grows : {s t : System} → Step s t → Grows s.repository t.repository
  Step-Grows {s} (retain_dispatch value items h) = Grows-refl s.repository
  Step-Grows {s} (retain_claimant value items h) = Grows-refl s.repository
  Step-Grows {s} (begin request e identity now new a b c) = Grows-refl s.repository
  Step-Grows {s} (finish t repository event i a) = append-Grows s.repository t.new _ a

  -- From any state to any later one, under any interleaving: every history is extended at its end, and
  -- every identity and idempotency identity keeps the record that it had.
  pub history_immutable : (s : System) {t : System} → Reach s t → Grows s.repository t.repository
  history_immutable s stay = Grows-refl s.repository
  history_immutable s (next r st) = Grows-trans (history_immutable s r) (Step-Grows st)

  evaluate_new-Reach :
      (s : System) (request : WorkClaimRequest) (e : Resolved) (identity : String) (now : DateTime)
      (prior : Option WorkClaimEvent) {repository : RepositoryState}
      {result : WorkClaimEvaluationResult}
      → resolve s.sources request ≡ ok e
      → work_claim_idempotency_identity request ≡ ok identity
      → evaluate_new s.sources s.repository s.repository request e identity now prior
        ≡ ok (repository, result)
      → (t : System) × Reach s t × (t.sources ≡ s.sources) × (t.repository ≡ repository)
  evaluate_new-Reach s request e identity now (some prior) a b h = (
    s,
    stay,
    refl,
    ap (λ (t : RepositoryState × WorkClaimEvaluationResult). t.0) (ok-injective h),
  )
  evaluate_new-Reach s request e identity now none a b h =
      let history = stream s.repository (lineage_key request) in
      let (new, prepared, rest) =
        >>=-eq-ok (prepare s.sources history request e identity now) _ h in
      let ((r, accepted), appended, rest') =
        >>=-eq-ok (append s.repository new request.expected_lineage_version) _ rest in
      let same = (prepare-Parts s.sources history request e identity now prepared).same_request in
      let waiting : Pending = record { new = new; seen = history } in
      let version = sym (ap (λ (q : WorkClaimRequest). q.expected_lineage_version) same) in
      (
        record { sources = s.sources; repository = r; pending = waiting ∷ s.pending },
        next (next stay (begin request e identity now new a b prepared))
            (finish waiting r accepted (here refl) (rw (← version) appended)),
        refl,
        ap (λ (t : RepositoryState × WorkClaimEvaluationResult). t.0) (ok-injective rest'),
      )

  -- An `evaluate` that returns is a run of the system: no step or one read of the history and one
  -- append, which lead to the repository that it leaves.
  pub evaluate-Reach :
      (s : System) (request : WorkClaimRequest) (now : DateTime) (repository : RepositoryState)
      (result : WorkClaimEvaluationResult)
      → evaluate s.sources s.repository request now ≡ ok (repository, result)
      → (t : System) × Reach s t × (t.sources ≡ s.sources) × (t.repository ≡ repository)
  unfolding evaluate
  evaluate-Reach s request now repository result h =
      let (e, resolved, h1) = >>=-eq-ok (resolve s.sources request) _ h in
      let (identity, identified, h2) = >>=-eq-ok (work_claim_idempotency_identity request) _ h1 in
      let (input, made, h3) =
        >>=-eq-ok (canonical_input_content request e.dispatch e.claimant e.policy) _ h2 in
      let (prior, looked, h4) =
        >>=-eq-ok
          (idempotent s.repository request.organization_id (lineage_key request) identity input) _
          h3 in
      evaluate_new-Reach s request e identity now prior resolved identified h4
