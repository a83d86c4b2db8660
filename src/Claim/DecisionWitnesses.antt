-- ===== src/Claim/DecisionWitnesses.antt =====
-- The theorems on the policy, the derived state and the built events, applied to single events.
use edgeiq.Base.{◌+◌, ◌≡◌, refl, true, none, some, [], ◌∷◌, ok, is_ok, arith}
use edgeiq.Platform.{Bytes}
use edgeiq.Platform.Plain.{plain, plain-InterpreterLaws}
use edgeiq.Dispatch.Domain.{dispatch_record_eq}
use edgeiq.Claim.Domain.{
  WorkClaimEvent, expire, release, claim_accepted, claim_rejected, claim_expired, claim_released,
  accepted, rejected, expired, released,
}
use edgeiq.Claim.Evidence.{claimant_eq}
use edgeiq.Claim.Policy.{WorkClaimDecision, decide}
use edgeiq.Claim.Policy.Decisions.{
  Admissible, HasPassed, accepted_only, released_only, expired_only,
}
use edgeiq.Claim.State.{advance_state}
use edgeiq.Claim.State.Agreement.{
  IsCoherent, Carries, decide-advance_state, advance_state-IsCoherent,
}
use edgeiq.Claim.Serialization.Build.{build_work_claim_event}
use edgeiq.Claim.Serialization.Build.Built.{Built, build-Built}
use edgeiq.Claim.Scenario.{
  or_default, default_answer, moment, sixty_four, dispatch, claimant, world, claiming, expiring,
}
use edgeiq.Claim.SampleEvents.{
  rules, open_state, claimed_state, releasing, created_event, accepted_event,
}

abbrev acceptance : WorkClaimDecision
acceptance = record {
  event_type = claim_accepted;
  outcome = accepted;
  reason_codes = "CLAIM_ACCEPTED" ∷ [];
  generation = 1;
  fence = some 1;
  expires_at_delta_seconds = some 300;
  causal_event_id = some "created";
}

abbrev ending : WorkClaimDecision → WorkClaimDecision
ending d = record d {
  fence = none;
  expires_at_delta_seconds = none;
  causal_event_id = some "accepted";
}

abbrev rejection : WorkClaimDecision
rejection = ending (record acceptance {
  event_type = claim_rejected;
  outcome = rejected;
  reason_codes = "ACTIVE_CLAIM_EXISTS" ∷ [];
})

abbrev expiration : WorkClaimDecision
expiration = ending (record acceptance {
  event_type = claim_expired;
  outcome = expired;
  reason_codes = "CLAIM_EXPIRED" ∷ [];
})

abbrev liberation : WorkClaimDecision
liberation = ending (record acceptance {
  event_type = claim_released;
  outcome = released;
  reason_codes = "CLAIM_RELEASED" ∷ [];
})

decided_acceptance : decide rules claiming dispatch claimant open_state ≡ ok acceptance
unfolding world
decided_acceptance = refl

-- The same claim in a lineage whose claim is held.
decided_rejection : decide rules claiming dispatch claimant claimed_state ≡ ok rejection
unfolding world
decided_rejection = refl

decided_expiration : decide rules expiring dispatch claimant claimed_state ≡ ok expiration
unfolding world
decided_expiration = refl

decided_liberation : decide rules releasing dispatch claimant claimed_state ≡ ok liberation
unfolding world
decided_liberation = refl

accepted_only_example :
    Admissible rules claiming dispatch claimant open_state
    × (acceptance.generation ≡ open_state.current_generation)
    × (acceptance.fence ≡ some (open_state.latest_fence + 1))
    × (acceptance.expires_at_delta_seconds ≡ some rules.claim_ttl_seconds)
accepted_only_example =
    accepted_only rules claiming dispatch claimant open_state decided_acceptance refl

released_only_example :
    (releasing.operation ≡ release)
    × (claimant.claimant_id ≡ "claimant")
    × (releasing.dispatch_decision_id ≡ "dispatch")
    × (claimant.selected_candidate_id ≡ "worker")
    × (liberation.causal_event_id ≡ some "accepted")
released_only_example =
    released_only rules releasing dispatch claimant claimed_state accepted_event refl
      decided_liberation refl

expired_only_example :
    (expiring.operation ≡ expire)
    × HasPassed expiring.semantic_at accepted_event.expires_at
    × (expiration.causal_event_id ≡ some "accepted")
expired_only_example =
    expired_only rules expiring dispatch claimant claimed_state accepted_event refl
      decided_expiration refl

open_state-IsCoherent : IsCoherent open_state
open_state-IsCoherent = ground arith

accepted_event-Carries : Carries open_state acceptance accepted_event
accepted_event-Carries = record {
  event_type = refl;
  generation = refl;
  fence = refl;
  causal = refl;
  version = refl;
}

decide-advance_state_example : is_ok (advance_state open_state accepted_event) ≡ true
decide-advance_state_example =
    decide-advance_state rules claiming dispatch claimant open_state accepted_event
      decided_acceptance accepted_event-Carries open_state-IsCoherent

advanced : advance_state open_state accepted_event ≡ ok claimed_state
unfolding world
advanced = refl

advance_state-IsCoherent_example : IsCoherent claimed_state
advance_state-IsCoherent_example =
    advance_state-IsCoherent open_state accepted_event open_state-IsCoherent advanced

-- The event that the acceptance is built into.
abbrev made : WorkClaimEvent × Bytes × Bytes
made =
    or_default (created_event, [], [])
      (build_work_claim_event claiming dispatch claimant rules acceptance 2 sixty_four
        (moment 9000))

made_ok :
    is_ok (
      build_work_claim_event claiming dispatch claimant rules acceptance 2 sixty_four (moment 9000))
    ≡ true
unfolding world
made_ok = refl

build-Built_example :
    Built claiming dispatch claimant rules acceptance 2 sixty_four
      (moment 9000)
      made.0
      made.1
      made.2
build-Built_example =
    build-Built claiming dispatch claimant rules acceptance 2 sixty_four (moment 9000) made.0 made.1
      made.2
      (default_answer _
        (build_work_claim_event claiming dispatch claimant rules acceptance 2 sixty_four
          (moment 9000))
        made_ok)
      plain-InterpreterLaws
