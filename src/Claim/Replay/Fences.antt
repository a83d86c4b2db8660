-- ===== src/Claim/Replay/Fences.antt =====
-- Fences and generations of a history that `_replay` takes.
use edgeiq.Base.{
  ℕ, zero, suc, ◌+◌, ◌≤◌, String, ◌≡◌, ap, sym, ◌∙◌, Bool, true, false, Option, some, List, [], ◌∷◌,
  ◌++◌, ok, arith, >>=-eq-ok, text_eq, Dict, put, is_some, if◌then◌else◌, Bool-cases, inl, inr,
  ok-injective, if◌then◌else◌,
}
use mathlib.Core.List.{append-nil, append_assoc}
use edgeiq.Platform.{Interpreter}
use edgeiq.Claim.Domain.{
  WorkClaimEvent, WorkClaimEventType, claim_accepted, WorkClaimRecord, LineageKey,
}
use edgeiq.Claim.Policy.{WorkClaimDerivedState}
use edgeiq.Claim.State.{advance_state}
use edgeiq.Claim.Replay.{Sources, replay_record, replay_from}
use edgeiq.Claim.Replay.Rebuilt.{replay_record-advance}

-- 1, 2, …, n.
abbrev pub one_to : ℕ → List (Option ℕ)
one_to zero = []
one_to (suc n) = one_to n ++ some (suc n) ∷ []

abbrev pub is_acceptance : WorkClaimEventType → Bool
is_acceptance claim_accepted = true
is_acceptance _ = false

-- The acceptances of a history, in its order.
abbrev pub acceptances : List WorkClaimRecord → List WorkClaimEvent
acceptances [] = []
acceptances (r ∷ rs) =
    let rest = acceptances rs in if is_acceptance r.event.event_type then r.event ∷ rest else rest

abbrev pub fences : List WorkClaimEvent → List (Option ℕ)
fences [] = []
fences (e ∷ es) = e.fence ∷ fences es

-- Each generation is at least the bound, and more than the one before it.
abbrev pub Increasing : ℕ → List WorkClaimEvent → Type 0
Increasing bound [] = Unit
Increasing bound (e ∷ es) = (bound ≤ e.generation) × Increasing (e.generation + 1) es

-- The least generation that can still accept a claim.
abbrev floor : WorkClaimDerivedState → ℕ
floor s = if is_some s.accepted_event then s.current_generation + 1 else s.current_generation

module _ (s : WorkClaimDerivedState) (e : WorkClaimEvent) {s' : WorkClaimDerivedState}
    (h : advance_state s e ≡ ok s') where
  accepting :
      is_acceptance e.event_type ≡ true
      → (e.fence ≡ some (suc s.latest_fence))
        × (s'.latest_fence ≡ suc s.latest_fence)
        × (floor s ≤ e.generation)
        × (floor s' ≡ e.generation + 1)
  unfolding advance_state
  accepting k = ground arith

  not_accepting :
      is_acceptance e.event_type ≡ false → (s'.latest_fence ≡ s.latest_fence) × (floor s ≤ floor s')
  unfolding advance_state
  not_accepting k = ground arith

Increasing-le : (a b : ℕ) (es : List WorkClaimEvent) → a ≤ b → Increasing b es → Increasing a es
Increasing-le a b [] h k = tt
Increasing-le a b (e ∷ es) h k = (omega arith, k.1)

acceptances-yes :
    (r : WorkClaimRecord) (rs : List WorkClaimRecord)
    → is_acceptance r.event.event_type ≡ true
    → acceptances (r ∷ rs) ≡ r.event ∷ acceptances rs
acceptances-yes r rs h = rw h

acceptances-no :
    (r : WorkClaimRecord) (rs : List WorkClaimRecord)
    → is_acceptance r.event.event_type ≡ false
    → acceptances (r ∷ rs) ≡ acceptances rs
acceptances-no r rs h = rw h

module _ ⦃p : Interpreter⦄ (sources : Sources) (key : LineageKey) where
  pub replay_from-fences :
      (s : WorkClaimDerivedState) (m : Dict String WorkClaimEvent) (rs : List WorkClaimRecord)
      {s' : WorkClaimDerivedState} {m' : Dict String WorkClaimEvent}
      → replay_from sources key s m rs ≡ ok (s', m')
      → one_to s.latest_fence ++ fences (acceptances rs) ≡ one_to s'.latest_fence
  unfolding replay_from
  replay_from-fences s m [] h =
      append-nil (one_to s.latest_fence)
      ∙ ap (λ (t : WorkClaimDerivedState × Dict String WorkClaimEvent). one_to t.0.latest_fence)
          (ok-injective h)
  replay_from-fences s m (r ∷ rs) h =
      let ((t, made), done, rest) = >>=-eq-ok (replay_record sources key s r) _ h in
      let advanced = (replay_record-advance sources key s r done).1 in
      let ih = replay_from-fences t (put m made.event_id made) rs rest in
      elim (Bool-cases (is_acceptance r.event.event_type)) [
        | inl y ↦
            let a = accepting s r.event advanced y in
            rw (acceptances-yes r rs y, a.0)
              (sym (
                  append_assoc (one_to s.latest_fence) (some (suc s.latest_fence) ∷ [])
                    (fences (acceptances rs)))
                ∙ ap (λ n. one_to n ++ fences (acceptances rs)) (sym a.1)
                ∙ ih)
        | inr n ↦ rw (acceptances-no r rs n, ← (not_accepting s r.event advanced n).0) ih
      ]

  pub replay_from-Increasing :
      (s : WorkClaimDerivedState) (m : Dict String WorkClaimEvent) (rs : List WorkClaimRecord)
      {s' : WorkClaimDerivedState} {m' : Dict String WorkClaimEvent}
      → replay_from sources key s m rs ≡ ok (s', m')
      → Increasing (floor s) (acceptances rs)
  unfolding replay_from
  replay_from-Increasing s m [] h = tt
  replay_from-Increasing s m (r ∷ rs) h =
      let ((t, made), done, rest) = >>=-eq-ok (replay_record sources key s r) _ h in
      let advanced = (replay_record-advance sources key s r done).1 in
      let ih = replay_from-Increasing t (put m made.event_id made) rs rest in
      elim (Bool-cases (is_acceptance r.event.event_type)) [
        | inl y ↦
            let a = accepting s r.event advanced y in
            rw (acceptances-yes r rs y) (a.2, rw (← a.3) ih)
        | inr n ↦ rw (acceptances-no r rs n) (
            Increasing-le (floor s) (floor t) (acceptances rs)
              (not_accepting s r.event advanced n).1 ih)
      ]
