-- ===== src/Lease/State.antt =====
-- `LeaseDerivedState`, `_advance_state` and `_decision` of app/runtime/execution_lease/service.py.
pub mod Agreement
pub mod Rules
pub mod Permissions
use edgeiq.Base.{
  ℕ, ◌+◌, String, Bool, true, false, not, ◌&&◌, ◌||◌, Option, none, some, Result, ok, err, ◌>>=◌,
  ◌>>◌, guard, Eq, ◌==◌, ◌/=◌, text_eq, nat_eq, is_none, is_some, String_discrete,
}
use edgeiq.Platform.{DateTime, before, EvidenceReference}
use edgeiq.Lease.Domain.{
  ExecutionLeaseError, invalid, illegal_transition, reconstruction_failed, ExecutionLeaseRequest,
  ExecutionLeaseEvent, LeaseEventType, granted, renewed, revoked, superseded, LeaseOperation, grant,
  renew, revoke, supersede, permitted,
}

unfoldable pub option_text_discrete : Discrete (Option String)
option_text_discrete = hlevel String_discrete

instance abbrev pub option_text_eq : Eq (Option String)
option_text_eq = record { dec = option_text_discrete }

pub record LeaseDerivedState : Type 0 where
  pub lineage_version : ℕ
  pub generation : ℕ
  pub current_authority_event : Option ExecutionLeaseEvent
  pub terminal_event : Option ExecutionLeaseEvent
  pub last_event : Option ExecutionLeaseEvent

abbrev pub initial_state : LeaseDerivedState
initial_state = record {
  lineage_version = 0;
  generation = 0;
  current_authority_event = none;
  terminal_event = none;
  last_event = none;
}

-- `event_id == last_event.event_id`, where there is a last event: the source reads it only where
-- there is an authority, and then there is one.
abbrev pub names_last : Option String → Option ExecutionLeaseEvent → Bool
names_last id none = false
names_last id (some last) = id == some last.event_id

abbrev pub advance_granted :
    LeaseDerivedState → ExecutionLeaseEvent → Result ExecutionLeaseError LeaseDerivedState
advance_granted s event = do
  guard (s.lineage_version == 0 && event.generation == 1 && is_none event.prior_event_id)
      reconstruction_failed
  ok (record {
    lineage_version = event.lineage_version;
    generation = 1;
    current_authority_event = some event;
    terminal_event = none;
    last_event = some event;
  })

-- A renewal or a supersession: the event is the new authority.
abbrev pub advance_authority : LeaseDerivedState → ExecutionLeaseEvent → ℕ → LeaseDerivedState
advance_authority s event generation = record {
  lineage_version = event.lineage_version;
  generation = generation;
  current_authority_event = some event;
  terminal_event = none;
  last_event = some event;
}

-- By the type of an event that follows the authority `current`.
abbrev pub advance_lifecycle :
    LeaseDerivedState
    → ExecutionLeaseEvent
    → ExecutionLeaseEvent
    → LeaseEventType
    → Result ExecutionLeaseError LeaseDerivedState
advance_lifecycle s event current granted = advance_granted s event
advance_lifecycle s event current renewed = do
  guard (event.generation == s.generation && event.lease_id == current.lease_id)
      reconstruction_failed
  ok (advance_authority s event s.generation)
advance_lifecycle s event current revoked = do
  guard (event.generation == s.generation && event.lease_id == current.lease_id)
      reconstruction_failed
  ok (record {
    lineage_version = event.lineage_version;
    generation = s.generation;
    current_authority_event = some current;
    terminal_event = some event;
    last_event = some event;
  })
advance_lifecycle s event current superseded = do
  guard (event.generation == s.generation + 1 && event.superseded_lease_id == some current.lease_id)
      reconstruction_failed
  ok (advance_authority s event event.generation)

abbrev pub advance_following :
    LeaseDerivedState
    → ExecutionLeaseEvent
    → LeaseEventType
    → Option ExecutionLeaseEvent
    → Result ExecutionLeaseError LeaseDerivedState
advance_following s event event_type none = err reconstruction_failed
advance_following s event event_type (some current) = do
  guard (names_last event.prior_event_id s.last_event) reconstruction_failed
  guard (is_none s.terminal_event) reconstruction_failed
  advance_lifecycle s event current event_type

abbrev pub advance_typed :
    LeaseDerivedState
    → ExecutionLeaseEvent
    → LeaseEventType
    → Result ExecutionLeaseError LeaseDerivedState
advance_typed s event granted = advance_granted s event
advance_typed s event event_type = advance_following s event event_type s.current_authority_event

unfoldable pub advance_state :
    LeaseDerivedState → ExecutionLeaseEvent → Result ExecutionLeaseError LeaseDerivedState
advance_state s event = do
  guard (event.lineage_version == s.lineage_version + 1) reconstruction_failed
  advance_typed s event event.event_type

-- The type, the generation and the superseded lease of the event that a request becomes.
pub record LeaseDecision : Type 0 where
  pub event_type : LeaseEventType
  pub generation : ℕ
  pub superseded_lease_id : Option String

-- `request.evaluation_at < last_event.reconstruction_metadata.evaluation_at`.
abbrev pub precedes : DateTime → Option ExecutionLeaseEvent → Bool
precedes t none = false
precedes t (some last) = before t last.reconstruction_metadata.evaluation_at

-- The authorization is another one than the authority's.
abbrev pub fresh_authorization : Option String → Option EvidenceReference → Bool
fresh_authorization id none = false
fresh_authorization id (some reference) = id /= some reference.artifact_id

-- By the operation, on the authority `current`.
abbrev pub decide_lifecycle :
    ExecutionLeaseRequest
    → LeaseDerivedState
    → ExecutionLeaseEvent
    → LeaseOperation
    → Result ExecutionLeaseError LeaseDecision
decide_lifecycle request s current grant = err illegal_transition
decide_lifecycle request s current renew = do
  guard (fresh_authorization request.authorization_evidence_id current.authorization_reference)
      invalid
  guard (permitted request.requested_permissions current.permissions) invalid
  guard (not (before request.effective_at current.effective_at)) invalid
  ok (record { event_type = renewed; generation = s.generation; superseded_lease_id = none })
decide_lifecycle request s current revoke = do
  guard (not (before request.effective_at current.effective_at)) invalid
  ok (record { event_type = revoked; generation = s.generation; superseded_lease_id = none })
decide_lifecycle request s current supersede = do
  guard (fresh_authorization request.authorization_evidence_id current.authorization_reference)
      invalid
  guard (not (before request.effective_at current.effective_at)) invalid
  ok (record {
    event_type = superseded;
    generation = s.generation + 1;
    superseded_lease_id = some current.lease_id;
  })

abbrev pub decide_following :
    ExecutionLeaseRequest
    → LeaseDerivedState
    → LeaseOperation
    → Option ExecutionLeaseEvent
    → Result ExecutionLeaseError LeaseDecision
decide_following request s operation none = err illegal_transition
decide_following request s operation (some current) = do
  guard (names_last request.prior_event_id s.last_event) illegal_transition
  guard (is_none s.terminal_event) illegal_transition
  decide_lifecycle request s current operation

abbrev pub decide_operation :
    ExecutionLeaseRequest
    → LeaseDerivedState
    → LeaseOperation
    → Result ExecutionLeaseError LeaseDecision
decide_operation request s grant = do
  guard (s.lineage_version == 0) illegal_transition
  ok (record { event_type = granted; generation = 1; superseded_lease_id = none })
decide_operation request s operation =
    decide_following request s operation s.current_authority_event

unfoldable pub decision :
    ExecutionLeaseRequest → LeaseDerivedState → Result ExecutionLeaseError LeaseDecision
decision request s = do
  guard (not (precedes request.evaluation_at s.last_event)) illegal_transition
  decide_operation request s request.operation
