-- ===== src/Lease/Scenario.antt =====
-- One lineage of leases: a grant, a renewal and a supersession, with the requests that lead to them.
use edgeiq.Base.{ℕ, ◌+◌, ◌*◌, String, Option, none, some, List, [], ◌∷◌}
use edgeiq.Platform.{DateTime, aware, EvidenceReference}
use edgeiq.Lease.Domain.{
  ExecutionLeaseRequest, ExecutionLeaseEvent, LeaseOperation, LeaseEventType, LeasePermission,
  renew, supersede, granted, renewed, offer_work_item, initiate_work_item_execution,
  supported_permission_family, supported_execution_lease_schema_version,
  supported_execution_lease_component_version, supported_serialization_version,
}
use edgeiq.Lease.State.{LeaseDerivedState}

abbrev pub sixty_four : String
sixty_four = "0123456789abcdef0123456789abcdef0123456789abcdef0123456789abcdef"

abbrev pub moment : ℕ → DateTime
moment seconds = aware (seconds * 1000000)

abbrev reference : String → EvidenceReference
reference id = record { artifact_id = id; canonical_digest = sixty_four }

-- A request at version 1, on the event "granted", for 500 seconds from the given time.
abbrev pub continuing : LeaseOperation → String → ℕ → List LeasePermission → ExecutionLeaseRequest
continuing operation authorization seconds permissions = record {
  operation = operation;
  organization_id = "org";
  workload_context_id = "ctx";
  plan_id = "plan";
  work_item_id = "item";
  permission_family = supported_permission_family;
  requested_permissions = permissions;
  authorization_evidence_id = some authorization;
  authorization_evidence_digest = some sixty_four;
  authorization_history_boundary = some "boundary";
  prior_event_id = some "granted";
  revocation_evidence_id = none;
  revocation_evidence_digest = none;
  effective_at = moment seconds;
  expires_at = some (moment (seconds + 500));
  evaluation_at = moment seconds;
  clock_source_id = "clock";
  clock_source_version = "clock.v1";
  lease_policy_id = "execution-lease-policy";
  lease_policy_version = "execution-lease-policy.v1";
  lease_policy_digest = sixty_four;
  configuration_version = "config";
  expected_lineage_version = 1;
  idempotency_key = "key";
  schema_version = supported_execution_lease_schema_version;
  component_version = supported_execution_lease_component_version;
  serialization_version = supported_serialization_version;
}

abbrev pub sample :
    String
    → String
    → LeaseEventType
    → String
    → List LeasePermission
    → ℕ
    → ℕ
    → Option String
    → Option String
    → ℕ
    → ExecutionLeaseEvent
sample id lease event_type authorization permissions generation version prior replaced seconds =
    record {
      event_id = id;
      lease_id = lease;
      lineage_id = sixty_four;
      organization_id = "org";
      workload_context_id = "ctx";
      plan_id = "plan";
      work_item_id = "item";
      permission_family = supported_permission_family;
      event_type = event_type;
      permissions = permissions;
      authorization_reference = some (reference authorization);
      revocation_reference = none;
      policy_reference = reference "execution-lease-policy";
      policy_version = "execution-lease-policy.v1";
      generation = generation;
      lineage_version = version;
      prior_event_id = prior;
      superseded_lease_id = replaced;
      effective_at = moment seconds;
      expires_at = some (moment (seconds + 500));
      canonical_input_digest = sixty_four;
      canonical_event_digest = sixty_four;
      idempotency_identity = sixty_four;
      reconstruction_metadata = record {
        authorization_history_boundary = some "boundary";
        evaluation_at = moment seconds;
        clock_source_id = "clock";
        clock_source_version = "clock.v1";
        configuration_version = "config";
        component_version = supported_execution_lease_component_version;
        serialization_version = supported_serialization_version;
      };
      recorded_at = moment 9000;
      schema_version = supported_execution_lease_schema_version;
    }

abbrev pub both : List LeasePermission
both = initiate_work_item_execution ∷ offer_work_item ∷ []

abbrev pub granted_event : ExecutionLeaseEvent
granted_event = sample "granted" "lease.1" granted "first" both 1 1 none none 100

abbrev pub renewed_event : ExecutionLeaseEvent
renewed_event =
    sample "renewed" "lease.1" renewed "second" (offer_work_item ∷ []) 1 2 (some "granted") none 200

abbrev pub granted_state : LeaseDerivedState
granted_state = record {
  lineage_version = 1;
  generation = 1;
  current_authority_event = some granted_event;
  terminal_event = none;
  last_event = some granted_event;
}

abbrev pub renewing : ExecutionLeaseRequest
renewing = continuing renew "second" 200 (offer_work_item ∷ [])

abbrev pub superseding : ExecutionLeaseRequest
superseding = continuing supersede "second" 200 both
