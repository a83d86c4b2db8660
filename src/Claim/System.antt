-- ===== src/Claim/System.antt =====
-- Threads that share one `WorkClaimService`: the evidence sources, the repository and the records that
-- threads have prepared and not yet appended. A thread in `evaluate` reads the history under the lock,
-- computes its record, and calls `append` under the lock: other threads act in between.
pub mod Invariant
pub mod Replayable
pub mod Append
pub mod Fencing
use edgeiq.Base.{String, ◌≡◌, List, [], ◌∷◌, Result, ok, In, Dict}
use edgeiq.Platform.{DateTime, Interpreter, retain}
use edgeiq.Dispatch.Domain.{DispatchDecisionRecord, dispatch_record_eq}
use edgeiq.Claim.Domain.{
  WorkClaimRequest, WorkClaimEvent, WorkClaimRecord, LineageKey, lineage_key, invalid,
}
use edgeiq.Claim.Evidence.{RetainedClaimantEvidence, claimant_source, dispatch_source, claimant_eq}
use edgeiq.Claim.Serialization.{work_claim_idempotency_identity}
use edgeiq.Claim.Repository.{RepositoryState, empty_repository, stream, append}
use edgeiq.Claim.Replay.{Sources, Resolved, resolve, prepare}

-- A prepared record, with the history that it was prepared on.
pub record Pending : Type 0 where
  pub new : WorkClaimRecord
  pub seen : List WorkClaimRecord

pub record System : Type 0 where
  pub sources : Sources
  pub repository : RepositoryState
  pub pending : List Pending

abbrev pub starting : Sources → System
starting sources = record { sources = sources; repository = empty_repository; pending = [] }

module _ ⦃p : Interpreter⦄ where
  -- A record stays pending after it is appended: a thread may try again. An `append` that raises, and
  -- every read, leaves the system as it is.
  pub data Step (s : System) : System → Type 0 where
    retain_dispatch :
        (value : DispatchDecisionRecord) (items : Dict String DispatchDecisionRecord)
        → retain dispatch_source invalid s.sources.dispatches value ≡ ok items
        → Step s
            (record s { sources = record { dispatches = items; claimants = s.sources.claimants } })
    retain_claimant :
        (value : RetainedClaimantEvidence) (items : Dict String RetainedClaimantEvidence)
        → retain claimant_source invalid s.sources.claimants value ≡ ok items
        → Step s
            (record s { sources = record { dispatches = s.sources.dispatches; claimants = items } })
    begin :
        (request : WorkClaimRequest) (e : Resolved) (identity : String) (now : DateTime)
        (new : WorkClaimRecord)
        → resolve s.sources request ≡ ok e
        → work_claim_idempotency_identity request ≡ ok identity
        → prepare s.sources (stream s.repository (lineage_key request)) request e identity now
          ≡ ok new
        → Step s (record s {
          pending =
              record { new = new; seen = stream s.repository (lineage_key request) } ∷ s.pending;
        })
    finish :
        (t : Pending) (repository : RepositoryState) (event : WorkClaimEvent)
        → In t s.pending
        → append s.repository t.new t.new.request.expected_lineage_version ≡ ok (repository, event)
        → Step s (record s { repository = repository })

  pub data Reach (s : System) : System → Type 0 where
    stay : Reach s s
    next : {t u : System} → Reach s t → Step t u → Reach s u
