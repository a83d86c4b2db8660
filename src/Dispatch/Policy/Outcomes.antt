-- ===== src/Dispatch/Policy/Outcomes.antt =====
-- When the policy approves.
use edgeiq.Base.{◌≡◌, ◌≤◌, refl, ◌↔◌, true, false, List, [], ◌∷◌, any, All, arith}
use edgeiq.Platform.{DateTime, instant, before}
use edgeiq.Dispatch.Domain.{approved}
use edgeiq.Dispatch.Evidence.{RetainedReadinessEvidence}
use edgeiq.Dispatch.Policy.{VerifiedDispatchEvidence, denial_reasons, evaluate}

-- Readiness that holds at the instant.
abbrev pub Holds : DateTime → RetainedReadinessEvidence → Type 0
Holds t r = (instant t ≤ instant r.expires_at) × (r.superseded ≡ false)

-- The lease is bounded, applies and is not revoked, and all readiness holds.
pub record Offerable (e : VerifiedDispatchEvidence) : Type 0 where
  pub bounded : e.lease.bounded_permission ≡ true
  pub started : instant e.lease.effective_at ≤ instant e.request.effective_at
  pub unexpired : instant e.request.effective_at ≤ instant e.lease.expires_at
  pub unrevoked : e.lease.revoked ≡ false
  pub ready : All (Holds e.request.effective_at) e.readiness

holding :
    (t : DateTime) (rs : List RetainedReadinessEvidence)
    → any (λ (r : RetainedReadinessEvidence). before r.expires_at t) rs ≡ false
    → any (λ (r : RetainedReadinessEvidence). r.superseded) rs ≡ false
    → All (Holds t) rs
holding t [] h k = tt
holding t (r ∷ rs) h k = ((ground arith, ground arith), holding t rs (ground arith) (ground arith))

held :
    (t : DateTime) (rs : List RetainedReadinessEvidence)
    → All (Holds t) rs
    → (any (λ (r : RetainedReadinessEvidence). before r.expires_at t) rs ≡ false)
      × (any (λ (r : RetainedReadinessEvidence). r.superseded) rs ≡ false)
held t [] h = (refl, refl)
held t (r ∷ rs) h = let (a, b) = held t rs h.1 in (ground (arith, a, h.0), ground (arith, b, h.0))

no_reasons : (e : VerifiedDispatchEvidence) → Offerable e → denial_reasons e ≡ []
no_reasons e o =
    let (a, b) = held e.request.effective_at e.readiness o.ready in
    ground (arith, a, b, o.bounded, o.started, o.unexpired, o.unrevoked)

unreasoned : (e : VerifiedDispatchEvidence) → denial_reasons e ≡ [] → Offerable e
unreasoned e h = record {
  bounded = ground arith;
  started = ground arith;
  unexpired = ground arith;
  unrevoked = ground arith;
  ready = holding e.request.effective_at e.readiness (ground arith) (ground arith);
}

approved-nil : (e : VerifiedDispatchEvidence) → (evaluate e).0 ≡ approved → denial_reasons e ≡ []
unfolding evaluate
approved-nil e h = ground arith

-- The policy approves exactly where the lease is bounded, applies at the request's time (its last instant
-- included), is not revoked, and all readiness is neither expired nor superseded.
pub evaluate-Offerable : (e : VerifiedDispatchEvidence) → (evaluate e).0 ≡ approved ↔ Offerable e
unfolding evaluate
evaluate-Offerable e = (
  λ h. unreasoned e (approved-nil e h),
  λ o. let none_found = no_reasons e o in ground (arith, none_found),
)
