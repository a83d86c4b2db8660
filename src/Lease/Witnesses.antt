-- ===== src/Lease/Witnesses.antt =====
-- The theorems on leases, applied to single events.
use edgeiq.Base.{◌+◌, ◌≤◌, ◌≡◌, refl, true, none, some, ok, arith, is_ok, String_discrete}
use native.Mathlib.Decide.{ℕ_discrete}
use edgeiq.Platform.{instant, sha256_hex, required_text, optional_text, utc_time, optional_utc_time}
use edgeiq.Platform.Plain.{plain, hex}
use edgeiq.Lease.Domain.{
  LeasePermission, grant, renewed, superseded, permitted, LeasePermission_discrete,
  LeaseEventType_discrete, unique_permissions, sorted_permissions, has_permission,
  ExecutionLeaseEvent, execution_lease_event,
}
use edgeiq.Lease.State.{
  LeaseDerivedState, LeaseDecision, advance_state, decision, fresh_authorization,
  option_text_discrete,
}
use edgeiq.Lease.State.Agreement.{IsCoherent, Carries, decision-advance_state}
use edgeiq.Lease.State.Permissions.{Admitted, here, after, Within, lineage-Within}
use edgeiq.Lease.State.Rules.{renewed_only, superseded_only, Applies, applicable_at-half_open}
use edgeiq.Lease.Scenario.{
  sixty_four, granted_event, renewed_event, granted_state, renewing, superseding,
}

abbrev renewal : LeaseDecision
renewal = record { event_type = renewed; generation = 1; superseded_lease_id = none }

abbrev supersession : LeaseDecision
supersession = record {
  event_type = superseded;
  generation = 2;
  superseded_lease_id = some "lease.1";
}

decided_renewal : decision renewing granted_state ≡ ok renewal
unfolding decision permitted option_text_discrete String_discrete ℕ_discrete
    LeasePermission_discrete
decided_renewal = refl

decided_supersession : decision superseding granted_state ≡ ok supersession
unfolding decision option_text_discrete String_discrete ℕ_discrete
decided_supersession = refl

renewed_only_example :
    (renewal.generation ≡ 1)
    × (fresh_authorization renewing.authorization_evidence_id granted_event.authorization_reference
        ≡ true)
    × (instant granted_event.effective_at ≤ instant renewing.effective_at)
    × ((k : LeasePermission)
        → has_permission k renewing.requested_permissions ≡ true
        → has_permission k granted_event.permissions ≡ true)
renewed_only_example = renewed_only renewing granted_state granted_event refl decided_renewal refl

superseded_only_example :
    (supersession.generation ≡ 1 + 1)
    × (supersession.superseded_lease_id ≡ some "lease.1")
    × (fresh_authorization superseding.authorization_evidence_id
          granted_event.authorization_reference
        ≡ true)
    × (instant granted_event.effective_at ≤ instant superseding.effective_at)
superseded_only_example =
    superseded_only superseding granted_state granted_event refl decided_supersession refl

granted_state-IsCoherent : IsCoherent granted_state
granted_state-IsCoherent = ground arith

renewed_event-Carries : Carries renewing granted_state renewal renewed_event
renewed_event-Carries = record {
  event_type = refl;
  generation = refl;
  superseded_lease = refl;
  prior = refl;
  version = refl;
  same_lease = λ h. refl;
}

no_grant : renewing.operation ≡ grant → renewing.prior_event_id ≡ none
no_grant h = cc

decision-advance_state_example : is_ok (advance_state granted_state renewed_event) ≡ true
decision-advance_state_example =
    decision-advance_state renewing granted_state renewed_event no_grant decided_renewal
      renewed_event-Carries granted_state-IsCoherent

-- The granted event under identities and digests that the constructor takes.
abbrev proper_event : ExecutionLeaseEvent
proper_event = record granted_event {
  event_id = sixty_four;
  lease_id = sixty_four;
  lineage_id = sixty_four;
  canonical_input_digest = sixty_four;
  canonical_event_digest = sixty_four;
  idempotency_identity = sixty_four;
}

proper_made : execution_lease_event proper_event ≡ ok proper_event
unfolding execution_lease_event sha256_hex required_text optional_text utc_time optional_utc_time
    hex String_discrete ℕ_discrete option_text_discrete LeasePermission_discrete
    LeaseEventType_discrete unique_permissions sorted_permissions
proper_made = refl

applicable_at-half_open_example : Applies proper_event proper_made 600000000
applicable_at-half_open_example = applicable_at-half_open proper_event proper_made 600000000

-- The state after the renewal, which leaves one of two permissions.
abbrev renewed_state : LeaseDerivedState
renewed_state = record {
  lineage_version = 2;
  generation = 1;
  current_authority_event = some renewed_event;
  terminal_event = none;
  last_event = some renewed_event;
}

advanced : advance_state granted_state renewed_event ≡ ok renewed_state
unfolding advance_state option_text_discrete String_discrete ℕ_discrete
advanced = refl

renewal-Admitted : Admitted granted_state renewed_state
renewal-Admitted = record {
  request = renewing;
  decided = renewal;
  event = renewed_event;
  decision_made = decided_renewal;
  carries = renewed_event-Carries;
  permissions = refl;
  advanced = advanced;
}

lineage-Within_example : Within renewed_event.permissions granted_event.permissions
lineage-Within_example = lineage-Within granted_state-IsCoherent (after here renewal-Admitted) refl
