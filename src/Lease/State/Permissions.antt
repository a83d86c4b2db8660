-- ===== src/Lease/State/Permissions.antt =====
-- Along a lineage of leases: what a generation permits is never broadened.
use edgeiq.Base.{
  ◌≤◌, ◌≡◌, ◌∙◌, sym, true, Option, none, some, List, [], ◌⊎◌, inl, inr, subst, ok, arith,
}
use edgeiq.Lease.Domain.{
  ExecutionLeaseRequest, ExecutionLeaseEvent, LeasePermission, permitted, has_permission,
}
use edgeiq.Lease.State.{LeaseDerivedState, LeaseDecision, advance_state, decision}
use edgeiq.Lease.State.Agreement.{IsCoherent, Carries, advance_state-IsCoherent}
use edgeiq.Lease.State.Rules.{permitted-has_permission}

-- One admitted event: it carries the decision on its request, and the permissions that it asks for.
pub record Admitted (s u : LeaseDerivedState) : Type 0 where
  pub request : ExecutionLeaseRequest
  pub decided : LeaseDecision
  pub event : ExecutionLeaseEvent
  pub decision_made : decision request s ≡ ok decided
  pub carries : Carries request s decided event
  pub permissions : event.permissions ≡ request.requested_permissions
  pub advanced : advance_state s event ≡ ok u

pub data Lineage (s : LeaseDerivedState) : LeaseDerivedState → Type 0 where
  here : Lineage s s
  after : {t u : LeaseDerivedState} → Lineage s t → Admitted t u → Lineage s u

-- What the authority of a state permits.
abbrev pub authority_permissions : Option ExecutionLeaseEvent → List LeasePermission
authority_permissions none = []
authority_permissions (some e) = e.permissions

module _ (s u : LeaseDerivedState) (request : ExecutionLeaseRequest) (d : LeaseDecision)
    (event : ExecutionLeaseEvent) where
  -- An admitted event of the same generation leaves the authority, or is a renewal of it.
  step_cases :
      IsCoherent s
      → decision request s ≡ ok d
      → event.event_type ≡ d.event_type
      → advance_state s event ≡ ok u
      → s.generation ≡ u.generation
      → (u.current_authority_event ≡ s.current_authority_event)
        ⊎ ((u.current_authority_event ≡ some event)
            × (permitted request.requested_permissions
                  (authority_permissions s.current_authority_event)
                ≡ true))
  unfolding decision advance_state
  step_cases c h t a g = ground arith

  step_generation :
      IsCoherent s
      → event.event_type ≡ d.event_type
      → decision request s ≡ ok d
      → advance_state s event ≡ ok u
      → s.generation ≤ u.generation
  unfolding decision advance_state
  step_generation c t h a = ground arith

-- Each permission of the first is one of the second.
abbrev pub Within : List LeasePermission → List LeasePermission → Type 0
Within js ks = (k : LeasePermission) → has_permission k js ≡ true → has_permission k ks ≡ true

step-Within :
    {s u : LeaseDerivedState}
    → IsCoherent s
    → Admitted s u
    → s.generation ≡ u.generation
    → Within
        (authority_permissions u.current_authority_event)
        (authority_permissions s.current_authority_event)
step-Within {s} {u} c a g k i =
    elim (step_cases s u a.request a.decided a.event c a.decision_made a.carries.event_type
      a.advanced g) [
        | inl same ↦ subst (λ o. has_permission k (authority_permissions o) ≡ true) same i
        | inr (renewal, within) ↦
            permitted-has_permission a.request.requested_permissions _ k within (
              subst (λ ks. has_permission k ks ≡ true) a.permissions
                (subst (λ o. has_permission k (authority_permissions o) ≡ true) renewal i))
      ]

lineage-IsCoherent : {s t : LeaseDerivedState} → IsCoherent s → Lineage s t → IsCoherent t
lineage-IsCoherent c here = c
lineage-IsCoherent c (after l a) =
    advance_state-IsCoherent _ a.event (lineage-IsCoherent c l) a.advanced

lineage_generation :
    {s t : LeaseDerivedState} → IsCoherent s → Lineage s t → s.generation ≤ t.generation
lineage_generation c here = omega arith
lineage_generation c (after {t} {u} l a) = omega (
  arith,
  lineage_generation c l,
  step_generation t u a.request a.decided a.event (lineage-IsCoherent c l) a.carries.event_type
      a.decision_made a.advanced,
)

-- Between two states of a lineage that are of one generation, whatever events were admitted in
-- between, the later authority permits nothing that the earlier one does not permit.
pub lineage-Within :
    {s t : LeaseDerivedState}
    → IsCoherent s
    → Lineage s t
    → s.generation ≡ t.generation
    → Within
        (authority_permissions t.current_authority_event)
        (authority_permissions s.current_authority_event)
lineage-Within c here g k i = i
lineage-Within {s} c (after {t} {u} l a) g k i =
    let coherent = lineage-IsCoherent c l in
    let earlier = lineage_generation c l in
    let later =
      step_generation t u a.request a.decided a.event coherent a.carries.event_type a.decision_made
        a.advanced in
    let same : t.generation ≡ u.generation = omega (arith, earlier, later, g) in
    lineage-Within c l (g ∙ sym same) k (step-Within coherent a same k i)
