-- ===== src/Selection/Evaluator/Ordering.antt =====
-- The order and the ranks of the candidates.
use edgeiq.Base.{
  ℕ, ◌+◌, ◌≤◌, ◌≡◌, refl, true, List, [], ◌∷◌, ok, arith, >>=-eq-ok, ok-injective, sym, All, subst,
}
use edgeiq.Base.Sorting.{IsOrder, Pairs, Le, sorted_by, sorted_by-Pairs}
use edgeiq.Platform.{Interpreter, instant, text_le}
use edgeiq.Platform.TextOrder.{text_le-IsOrder}
use edgeiq.Selection.Domain.{
  Formats, WorkerSelectionRequest, WorkerSelectionCandidate, WorkerSelection,
}
use edgeiq.Selection.Policy.{ScoringPolicy, policy_for}
use edgeiq.Selection.Evaluator.{
  Scored, Screened, validate_request, screen, ranks_before, candidate, ranked, selection_of,
  evaluate,
}

ranks_before-IsOrder : IsOrder ranks_before
unfolding ranks_before
ranks_before-IsOrder = record {
  total = λ a b h. ground (arith, text_le-IsOrder.total a.evidence.worker_id b.evidence.worker_id);
  trans = λ a b c h k.
      ground (
        arith,
        text_le-IsOrder.trans a.evidence.worker_id b.evidence.worker_id c.evidence.worker_id,
      );
}

-- A higher score first; of equal scores the earlier evidence; of equal times the smaller identity.
abbrev pub Precedes : WorkerSelectionCandidate → WorkerSelectionCandidate → Type 0
Precedes a b =
    (b.score ≤ a.score)
    × (a.score ≡ b.score
        → (instant a.readiness_evaluated_at ≤ instant b.readiness_evaluated_at)
          × (instant a.readiness_evaluated_at ≡ instant b.readiness_evaluated_at
              → text_le a.worker_id b.worker_id ≡ true))

abbrev pub Numbered : ℕ → List WorkerSelectionCandidate → Type 0
Numbered n [] = Unit
Numbered n (c ∷ cs) = (c.rank ≡ n) × Numbered (n + 1) cs

module _ ⦃p : Interpreter⦄ ⦃f : Formats⦄ (r : WorkerSelectionRequest) where
  -- What an evaluation that returned is made of.
  pub record Evaluated (version : ℕ) (s : WorkerSelection) : Type 0 where
    pub policy : ScoringPolicy
    pub screened : Screened
    pub valid : validate_request r ≡ ok tt
    pub registered : policy_for r.scoring_policy_version ≡ ok policy
    pub screening : screen r policy r.readiness ≡ ok screened
    pub selection : s ≡ selection_of r version policy screened

  pub evaluate-Evaluated :
      (version : ℕ) {s : WorkerSelection} → evaluate r version ≡ ok s → Evaluated version s
  unfolding evaluate
  evaluate-Evaluated version h =
      let (u, valid, h1) = >>=-eq-ok (validate_request r) _ h in
      let (policy, registered, h2) = >>=-eq-ok (policy_for r.scoring_policy_version) _ h1 in
      let (screened, screening, h3) = >>=-eq-ok (screen r policy r.readiness) _ h2 in
      record {
        policy = policy;
        screened = screened;
        valid = valid;
        registered = registered;
        screening = screening;
        selection = sym (ok-injective h3);
      }

  before-Precedes :
      (m n : ℕ) (a b : Scored)
      → ranks_before a b ≡ true
      → Precedes (candidate r m a) (candidate r n b)
  unfolding ranks_before candidate
  before-Precedes m n a b h = ground arith

  ranked-All :
      (m n : ℕ) (a : Scored) (ss : List Scored)
      → All (Le ranks_before a) ss
      → All (Precedes (candidate r m a)) (ranked r n ss)
  unfolding ranked
  ranked-All m n a [] h = tt
  ranked-All m n a (s ∷ ss) h = (before-Precedes m n a s h.0, ranked-All m (n + 1) a ss h.1)

  ranked-Pairs :
      (n : ℕ) (ss : List Scored) → Pairs (Le ranks_before) ss → Pairs Precedes (ranked r n ss)
  unfolding ranked
  ranked-Pairs n [] h = tt
  ranked-Pairs n (s ∷ ss) h = (ranked-All n (n + 1) s ss h.0, ranked-Pairs (n + 1) ss h.1)

  ranked-Numbered : (n : ℕ) (ss : List Scored) → Numbered n (ranked r n ss)
  unfolding ranked candidate
  ranked-Numbered n [] = tt
  ranked-Numbered n (s ∷ ss) = (refl, ranked-Numbered (n + 1) ss)

  -- The candidates of a selection are ranked from 1 on without a gap, and each precedes all after it:
  -- by a higher score, then by earlier readiness evidence, then by the smaller worker identity.
  pub evaluate-Precedes :
      (version : ℕ) {s : WorkerSelection}
      → evaluate r version ≡ ok s
      → Numbered 1 s.candidates × Pairs Precedes s.candidates
  unfolding selection_of
  evaluate-Precedes version h =
      let e = evaluate-Evaluated version h in
      let sorted = sorted_by ranks_before e.screened.provisional in
      subst (λ (s : WorkerSelection). Numbered 1 s.candidates × Pairs Precedes s.candidates)
        (sym e.selection)
        (
          ranked-Numbered 1 sorted,
          ranked-Pairs 1 sorted
              (sorted_by-Pairs ranks_before ranks_before-IsOrder e.screened.provisional),
        )
