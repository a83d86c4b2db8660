-- ===== src/Claim/State.antt =====
-- `_advance_state` of app/runtime/work_claim/service.py: the derived state after one event.
pub mod Agreement
pub mod Ids
use edgeiq.Base.{
  ℕ, ◌+◌, String, Bool, false, ◌&&◌, ◌||◌, Option, none, some, Result, ok, err, ◌>>◌, guard, Eq,
  ◌==◌, text_eq, nat_eq, is_none, is_some, String_discrete, if◌then◌else◌,
}
use native.Mathlib.Decide.{ℕ_discrete}
use edgeiq.Claim.Domain.{
  WorkClaimError, reconstruction_failed, WorkClaimEvent, WorkClaimEventType, generation_created,
  claim_accepted, claim_rejected, claim_expired, claim_released,
}
use edgeiq.Claim.Policy.{WorkClaimDerivedState}

unfoldable pub option_text_discrete : Discrete (Option String)
option_text_discrete = hlevel String_discrete

instance abbrev pub option_text_eq : Eq (Option String)
option_text_eq = record { dec = option_text_discrete }

unfoldable pub option_nat_discrete : Discrete (Option ℕ)
option_nat_discrete = hlevel ℕ_discrete

instance abbrev pub option_nat_eq : Eq (Option ℕ)
option_nat_eq = record { dec = option_nat_discrete }

abbrev pub advance_generation :
    WorkClaimDerivedState → WorkClaimEvent → Result WorkClaimError WorkClaimDerivedState
advance_generation s event = do
  guard (event.generation == (if s.current_generation == 0 then 1 else s.current_generation + 1))
      reconstruction_failed
  guard (s.current_generation == 0 || is_some s.ended_event) reconstruction_failed
  ok (record {
    lineage_version = event.lineage_version;
    current_generation = event.generation;
    generation_event = some event;
    accepted_event = none;
    ended_event = none;
    latest_fence = s.latest_fence;
    last_event = some event;
  })

-- The new `latest_fence` is `event.fence`, which the test has found to be `latest_fence + 1`.
abbrev pub advance_accepted :
    WorkClaimDerivedState → WorkClaimEvent → Result WorkClaimError WorkClaimDerivedState
advance_accepted s event = do
  guard (is_none s.accepted_event) reconstruction_failed
  guard (event.fence == some (s.latest_fence + 1)) reconstruction_failed
  ok (record s {
    lineage_version = event.lineage_version;
    accepted_event = some event;
    ended_event = none;
    latest_fence = s.latest_fence + 1;
    last_event = some event;
  })

abbrev pub caused_by : WorkClaimEvent → Option WorkClaimEvent → Bool
caused_by event none = false
caused_by event (some a) = event.causal_event_id == some a.event_id

abbrev pub advance_ended :
    WorkClaimDerivedState → WorkClaimEvent → Result WorkClaimError WorkClaimDerivedState
advance_ended s event = do
  guard (is_none event.fence) reconstruction_failed
  guard (caused_by event s.accepted_event) reconstruction_failed
  ok (record s {
    lineage_version = event.lineage_version;
    ended_event = some event;
    last_event = some event;
  })

abbrev pub advance_lifecycle :
    WorkClaimDerivedState
    → WorkClaimEvent
    → WorkClaimEventType
    → Result WorkClaimError WorkClaimDerivedState
advance_lifecycle s event claim_accepted = advance_accepted s event
advance_lifecycle s event claim_rejected = do
  guard (is_none event.fence) reconstruction_failed
  ok (record s {
    lineage_version = event.lineage_version;
    ended_event = none;
    last_event = some event;
  })
advance_lifecycle s event claim_expired = advance_ended s event
advance_lifecycle s event claim_released = advance_ended s event
advance_lifecycle s event generation_created = err reconstruction_failed

abbrev pub advance_typed :
    WorkClaimDerivedState
    → WorkClaimEvent
    → WorkClaimEventType
    → Result WorkClaimError WorkClaimDerivedState
advance_typed s event generation_created = advance_generation s event
advance_typed s event event_type = do
  guard (is_some s.generation_event && event.generation == s.current_generation)
      reconstruction_failed
  guard (is_none s.ended_event) reconstruction_failed
  advance_lifecycle s event event_type

unfoldable pub advance_state :
    WorkClaimDerivedState → WorkClaimEvent → Result WorkClaimError WorkClaimDerivedState
advance_state s event = do
  guard (event.lineage_version == s.lineage_version + 1) reconstruction_failed
  advance_typed s event event.event_type
