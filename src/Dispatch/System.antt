-- ===== src/Dispatch/System.antt =====
-- Threads that share one `DispatchDecisionService`: the sources, the repository and the records that
-- threads have built and not yet appended. Building a record reads the sources alone; `append` takes the
-- repository's lock, and other threads act in between.
pub mod Invariant
pub mod Replayable
use edgeiq.Base.{ℕ, String, ◌≡◌, List, [], ◌∷◌, Result, ok, In, Dict}
use edgeiq.Platform.{DateTime, Interpreter, retain}
use edgeiq.Dispatch.Domain.{DispatchRequest, DispatchDecision, DispatchDecisionRecord, invalid}
use edgeiq.Dispatch.Evidence.{
  RetainedPlanEvidence, RetainedReadinessEvidence, RetainedSelectionEvidence, RetainedLeaseEvidence,
  plan_source, selection_source, readiness_source, lease_source, plan_eq, selection_eq,
  readiness_eq, lease_eq,
}
use edgeiq.Dispatch.Repository.{RepositoryState, empty_repository, append}
use edgeiq.Dispatch.Resolve.{Sources}
use edgeiq.Dispatch.Service.{prepare}

-- A record with the version that its thread expects.
pub record Pending : Type 0 where
  pub new : DispatchDecisionRecord
  pub expected_version : ℕ

pub record System : Type 0 where
  pub sources : Sources
  pub repository : RepositoryState
  pub pending : List Pending

abbrev pub starting : Sources → System
starting sources = record { sources = sources; repository = empty_repository; pending = [] }

module _ ⦃p : Interpreter⦄ where
  pub data Step (s : System) : System → Type 0 where
    retain_plan :
        (value : RetainedPlanEvidence) (items : Dict String RetainedPlanEvidence)
        → retain plan_source invalid s.sources.plans value ≡ ok items
        → Step s (record s { sources = record (s.sources) { plans = items } })
    retain_selection :
        (value : RetainedSelectionEvidence) (items : Dict String RetainedSelectionEvidence)
        → retain selection_source invalid s.sources.selections value ≡ ok items
        → Step s (record s { sources = record (s.sources) { selections = items } })
    retain_readiness :
        (value : RetainedReadinessEvidence) (items : Dict String RetainedReadinessEvidence)
        → retain readiness_source invalid s.sources.readiness value ≡ ok items
        → Step s (record s { sources = record (s.sources) { readiness = items } })
    retain_lease :
        (value : RetainedLeaseEvidence) (items : Dict String RetainedLeaseEvidence)
        → retain lease_source invalid s.sources.leases value ≡ ok items
        → Step s (record s { sources = record (s.sources) { leases = items } })
    begin :
        (request : DispatchRequest) (version : ℕ) (key : String) (now : DateTime)
        (new : DispatchDecisionRecord)
        → prepare s.sources request version key now ≡ ok new
        → Step s
            (record s { pending = record { new = new; expected_version = version } ∷ s.pending })
    finish :
        (t : Pending) (repository : RepositoryState) (decision : DispatchDecision)
        → In t s.pending
        → append s.repository t.new t.expected_version ≡ ok (repository, decision)
        → Step s (record s { repository = repository })

  pub data Reach (s : System) : System → Type 0 where
    stay : Reach s s
    next : {t u : System} → Reach s t → Step t u → Reach s u
