-- ===== src/Lease/State/Rules.antt =====
-- What `_decision` admits, and when a lease applies.
use edgeiq.Base.{
  ℕ, ◌+◌, ◌≤◌, ◌<◌, ◌≡◌, ◌↔◌, ◌⊎◌, inl, inr, true, false, some, none, ok, err, arith, text_eq,
  Option-cases, List, [], ◌∷◌,
}
use edgeiq.Platform.{Interpreter, DateTime, aware, instant, utc_time}
use edgeiq.Lease.Domain.{
  illegal_transition, ExecutionLeaseRequest, ExecutionLeaseEvent, LeasePermission, permission_eq,
  event_type_eq, renewed, revoked, superseded, grant, permitted, has_permission, applicable_at,
  execution_lease_event, LeaseEventType_discrete,
}
use edgeiq.Lease.State.{LeaseDerivedState, LeaseDecision, decision, fresh_authorization}

-- `set(js).issubset(ks)`, by its elements.
pub permitted-has_permission :
    (js ks : List LeasePermission) (k : LeasePermission)
    → permitted js ks ≡ true
    → has_permission k js ≡ true
    → has_permission k ks ≡ true
unfolding permitted
permitted-has_permission [] ks k h i = cc
permitted-has_permission (j ∷ js) ks k h i = ground (arith, permitted-has_permission js ks k)

module _ (request : ExecutionLeaseRequest) (s : LeaseDerivedState) where
  -- A lineage has one grant: once it has an event, a grant is refused.
  pub granted_once :
      request.operation ≡ grant
      → 0 < s.lineage_version
      → decision request s ≡ err illegal_transition
  unfolding decision
  granted_once o v = ground arith

  module _ (current : ExecutionLeaseEvent) (held : s.current_authority_event ≡ some current)
      {d : LeaseDecision} (decided : decision request s ≡ ok d) where
    renewed_parts :
        d.event_type ≡ renewed
        → (d.generation ≡ s.generation)
          × (fresh_authorization request.authorization_evidence_id current.authorization_reference
              ≡ true)
          × (instant current.effective_at ≤ instant request.effective_at)
          × (permitted request.requested_permissions current.permissions ≡ true)
    unfolding decision
    renewed_parts h = ground arith

    -- A renewal keeps the generation, rests on another authorization than the authority that it
    -- renews, starts no earlier, and permits nothing that the authority does not permit.
    pub renewed_only :
        d.event_type ≡ renewed
        → (d.generation ≡ s.generation)
          × (fresh_authorization request.authorization_evidence_id current.authorization_reference
              ≡ true)
          × (instant current.effective_at ≤ instant request.effective_at)
          × ((k : LeasePermission)
              → has_permission k request.requested_permissions ≡ true
              → has_permission k current.permissions ≡ true)
    renewed_only h =
        let (generation, fresh, later, within) = renewed_parts h in
        (
          generation,
          fresh,
          later,
          λ k i.
              permitted-has_permission request.requested_permissions current.permissions k within i,
        )

    -- A supersession opens the next generation, names the lease that it supersedes, rests on another
    -- authorization, and starts no earlier.
    pub superseded_only :
        d.event_type ≡ superseded
        → (d.generation ≡ s.generation + 1)
          × (d.superseded_lease_id ≡ some current.lease_id)
          × (fresh_authorization request.authorization_evidence_id current.authorization_reference
              ≡ true)
          × (instant current.effective_at ≤ instant request.effective_at)
    unfolding decision
    superseded_only h = ground arith

module _ ⦃p : Interpreter⦄ (given : ExecutionLeaseEvent) {e : ExecutionLeaseEvent}
    (made : execution_lease_event given ≡ ok e) where
  revoked_no_expiry : e.event_type ≡ revoked → e.expires_at ≡ none
  unfolding execution_lease_event
  revoked_no_expiry h = ground arith

  not_without_expiry : ¬ (e.event_type ≡ revoked) → ¬ (e.expires_at ≡ none)
  unfolding execution_lease_event
  not_without_expiry n h = ground arith

  not_before_effective :
      (expires : DateTime)
      → e.expires_at ≡ some expires
      → ¬ (e.event_type ≡ revoked)
      → instant e.effective_at < instant expires
  unfolding execution_lease_event
  not_before_effective expires held n = ground arith

  expiry_follows :
      ¬ (e.event_type ≡ revoked)
      → (expires : DateTime) × (e.expires_at ≡ some expires)
        × (instant e.effective_at < instant expires)
  expiry_follows n = elim (Option-cases e.expires_at) [
    | inl missing ↦ elim (not_without_expiry n missing) [ ]
    | inr (expires, held) ↦ (expires, held, not_before_effective expires held n)
  ]

  -- What `applicable_at` answers at the time `t` on an event of a kind.
  abbrev pub Applies : ℕ → Type 0
  Applies t =
      ((e.event_type ≡ revoked) × (applicable_at e (aware t) ≡ ok false))
      ⊎ ((¬ (e.event_type ≡ revoked))
          × ((expires : DateTime) × (e.expires_at ≡ some expires)
              × (instant e.effective_at < instant expires)
              × (applicable_at e (aware t) ≡ ok true
                  ↔ (instant e.effective_at ≤ t) × (t < instant expires))))

  -- An event that the constructor returned never applies if it is a revocation. Any other has an expiry
  -- after its effective time, and applies from its effective time and until before its expiry: at the
  -- expiry itself it does not.
  pub applicable_at-half_open : (t : ℕ) → Applies t
  unfolding applicable_at utc_time
  applicable_at-half_open t = elim (LeaseEventType_discrete e.event_type revoked) [
    | yes h ↦ inl (h, ground (arith, revoked_no_expiry h))
    | no n ↦
        let (expires, held, later) = expiry_follows n in
        inr (n, (expires, held, later, ground arith))
  ]
