-- ===== src/Claim/RecordWitnesses.antt =====
-- The theorems on the repository and the sources, applied to single records.
use edgeiq.Base.{ℕ, String, ◌≡◌, refl, List, [], ◌∷◌, ok, err, empty_dict}
use edgeiq.Platform.Plain.{plain}
use edgeiq.Platform.Evidence.{retain}
use edgeiq.Platform.Evidence.Immutable.{Extends, retain-Extends}
use edgeiq.Dispatch.Domain.{dispatch_record_eq}
use edgeiq.Claim.Domain.{WorkClaimRecord, invalid, version_conflict}
use edgeiq.Claim.Evidence.{claimant_source, claimant_eq}
use edgeiq.Claim.Repository.{empty_repository, publish, append}
use edgeiq.Claim.Repository.Growth.{Stored}
use edgeiq.Claim.Repository.Indexes.{IsIndexed, empty-IsIndexed, append-IsIndexed}
use edgeiq.Claim.Repository.Conflicts.{append_if, second_writer_conflicts}
use edgeiq.Claim.Scenario.{claimant, sources, world, opening}
use edgeiq.Claim.SampleEvents.{created_event}

-- A record of the first event, by its identity and its input.
abbrev prepared : String → List ℕ → WorkClaimRecord
prepared identity input = record {
  request = opening;
  event = created_event;
  idempotency_identity = identity;
  canonical_input_content = input;
  canonical_event_content = 1 ∷ [];
}

stored :
    Stored empty_repository
      (prepared "a" (1 ∷ []))
      0
      (publish empty_repository (prepared "a" (1 ∷ [])))
      created_event
unfolding world
stored = record {
  new_key = refl;
  new_id = refl;
  counted = refl;
  requested = refl;
  versioned = refl;
  published = refl;
  returned = refl;
}

second_writer_conflicts_example :
    append (publish empty_repository (prepared "a" (1 ∷ []))) (prepared "b" (1 ∷ [])) 0
    ≡ err version_conflict
unfolding world
second_writer_conflicts_example =
    second_writer_conflicts empty_repository (prepared "a" (1 ∷ [])) (prepared "b" (1 ∷ [])) 0
      stored refl refl

appended :
    append empty_repository (prepared "a" (1 ∷ [])) 0
    ≡ ok (publish empty_repository (prepared "a" (1 ∷ [])), created_event)
unfolding world
appended = append_if empty_repository (prepared "a" (1 ∷ [])) 0 refl refl refl refl refl

append-IsIndexed_example : IsIndexed (publish empty_repository (prepared "a" (1 ∷ [])))
append-IsIndexed_example =
    append-IsIndexed empty_repository (prepared "a" (1 ∷ [])) 0 appended empty-IsIndexed

retained : retain claimant_source invalid empty_dict claimant ≡ ok sources.claimants
unfolding world retain
retained = refl

retain-Extends_example : Extends empty_dict sources.claimants
retain-Extends_example = retain-Extends claimant_source invalid empty_dict claimant retained
