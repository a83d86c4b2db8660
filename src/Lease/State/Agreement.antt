-- ===== src/Lease/State/Agreement.antt =====
-- The decision and the replay agree: an event that carries what `_decision` returned is one that
-- `_advance_state` takes, in every state that a history derives.
use edgeiq.Base.{◌+◌, ◌<◌, String, ◌≡◌, true, Option, none, some, ok, arith, is_some, is_ok}
use edgeiq.Lease.Domain.{ExecutionLeaseRequest, ExecutionLeaseEvent, grant}
use edgeiq.Lease.State.{LeaseDerivedState, LeaseDecision, initial_state, advance_state, decision}

-- What holds of a derived state: no version is no event, and an authority is the last event or is
-- followed by a terminal event.
pub record IsCoherent (s : LeaseDerivedState) : Type 0 where
  pub fresh :
      s.lineage_version ≡ 0
      → (s.current_authority_event ≡ none) × (s.last_event ≡ none) × (s.terminal_event ≡ none)
  pub ungranted : s.lineage_version ≡ 0 → s.generation ≡ 0
  pub started :
      0 < s.lineage_version
      → (is_some s.current_authority_event ≡ true)
        × (is_some s.last_event ≡ true)
        × (0 < s.generation)
  pub open_authority : s.terminal_event ≡ none → s.last_event ≡ s.current_authority_event

pub initial_state-IsCoherent : IsCoherent initial_state
initial_state-IsCoherent = ground arith

pub advance_state-IsCoherent :
    (s : LeaseDerivedState) (event : ExecutionLeaseEvent) {s' : LeaseDerivedState}
    → IsCoherent s
    → advance_state s event ≡ ok s'
    → IsCoherent s'
unfolding advance_state
advance_state-IsCoherent s event c h = ground arith

abbrev lease_of : Option ExecutionLeaseEvent → Option String
lease_of none = none
lease_of (some e) = some e.lease_id

-- The event carries what was decided on the request, at the next version; a renewal and a revocation
-- keep the lease.
pub record Carries (request : ExecutionLeaseRequest) (s : LeaseDerivedState) (d : LeaseDecision)
    (event : ExecutionLeaseEvent) : Type 0 where
  pub event_type : event.event_type ≡ d.event_type
  pub generation : event.generation ≡ d.generation
  pub superseded_lease : event.superseded_lease_id ≡ d.superseded_lease_id
  pub prior : event.prior_event_id ≡ request.prior_event_id
  pub version : event.lineage_version ≡ s.lineage_version + 1
  pub same_lease :
      event.generation ≡ s.generation → some event.lease_id ≡ lease_of s.current_authority_event

module _ (request : ExecutionLeaseRequest) (s : LeaseDerivedState)
    (event : ExecutionLeaseEvent) where
  -- In every coherent state, `_advance_state` takes an event that carries what `_decision` returned: its
  -- type, generation and superseded lease, the request's prior event, the next version, and, where the
  -- generation is kept, the lease of the current authority. A grant names no prior event, as the constructor
  -- of its request demands.
  pub decision-advance_state :
      {d : LeaseDecision}
      → (request.operation ≡ grant → request.prior_event_id ≡ none)
      → decision request s ≡ ok d
      → Carries request s d event
      → IsCoherent s
      → is_ok (advance_state s event) ≡ true
  unfolding decision advance_state
  decision-advance_state g h c k = ground arith
