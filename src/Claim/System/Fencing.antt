-- ===== src/Claim/System/Fencing.antt =====
-- Mutual exclusion: the fences and the generations of the claims that a lineage has accepted.
use edgeiq.Base.{ℕ, zero, suc, ◌≡◌, ap, sym, ◌∙◌, some, List, [], ◌∷◌, length, length-append, arith}
use edgeiq.Platform.{Interpreter, InterpreterLaws}
use edgeiq.Claim.Domain.{LineageKey, WorkClaimEvent}
use edgeiq.Claim.Policy.{initial_state}
use edgeiq.Claim.Repository.{stream}
use edgeiq.Claim.Replay.{Sources}
use edgeiq.Claim.Replay.Fences.{
  acceptances, fences, one_to, Increasing, replay_from-fences, replay_from-Increasing,
}
use edgeiq.Claim.System.{System, starting, Reach}
use edgeiq.Claim.System.Invariant.{starting-IsSound, Reach-IsSound}

length-one_to : (n : ℕ) → length (one_to n) ≡ n
length-one_to zero = omega arith
length-one_to (suc n) = omega (arith, length-append (one_to n) (some (suc n) ∷ []), length-one_to n)

length-fences : (es : List WorkClaimEvent) → length (fences es) ≡ length es
length-fences [] = omega arith
length-fences (e ∷ es) = omega (arith, length-fences es)

module _ ⦃p : Interpreter⦄ (laws : InterpreterLaws p) (sources : Sources) {s : System}
    (reached : Reach (starting sources) s) (k : LineageKey) where
  -- The fences of a lineage's accepted claims are 1, 2, 3, … in the order of its history, with no
  -- gap and no reuse, in every state that any interleaving of threads reaches.
  pub fences_consecutive :
      fences (acceptances (stream s.repository k))
      ≡ one_to (length (acceptances (stream s.repository k)))
  fences_consecutive =
      let r = (Reach-IsSound laws (starting-IsSound sources) reached).streams k in
      let counted = replay_from-fences s.sources k initial_state _ (stream s.repository k) r.runs in
      let es = acceptances (stream s.repository k) in
      counted
      ∙ ap one_to
          (sym (length-one_to r.state.latest_fence) ∙ sym (ap length counted) ∙ length-fences es)

  -- The generations of a lineage's accepted claims strictly increase along its history, so no
  -- generation accepts two claims, in every state that any interleaving of threads reaches.
  pub one_acceptance_per_generation : Increasing 0 (acceptances (stream s.repository k))
  one_acceptance_per_generation =
      let r = (Reach-IsSound laws (starting-IsSound sources) reached).streams k in
      replay_from-Increasing s.sources k initial_state _ (stream s.repository k) r.runs
