-- ===== src/Dispatch/Witnesses.antt =====
-- The theorems on dispatch decisions, applied to the scenario.
use edgeiq.Base.{
  ◌≡◌, refl, true, [], ◌∷◌, Result, ok, is_ok, is_ok→ok, In, ◌==◌, ◌>>=◌, ◌>>◌, >>=-eq-ok, guard,
  guard-eq-ok, ==→≡,
}
use edgeiq.Platform.Plain.{plain, plain-InterpreterLaws}
use edgeiq.Dispatch.Domain.{
  DispatchDecision, DispatchDecisionRecord, DispatchDecisionError, DispatchRequest, approved,
  not_found, outcome_eq,
}
use edgeiq.Dispatch.Policy.{VerifiedDispatchEvidence, RegisteredDispatchPolicy}
use edgeiq.Dispatch.Policy.Outcomes.{Offerable}
use edgeiq.Dispatch.Repository.{RepositoryState, empty_repository, append}
use edgeiq.Dispatch.Resolve.{resolve}
use edgeiq.Dispatch.Resolve.Verified.{Verified}
use edgeiq.Dispatch.Service.{get, prepare, reconstruct}
use edgeiq.Dispatch.System.{System, Step, Reach, stay, next, starting}
use edgeiq.Dispatch.System.Replayable.{reconstruct_reproduces, approved_supported, MadeOf}
use edgeiq.Dispatch.Scenario.{sources, request, moment, prepared, world}

-- A record is prepared and appended, and its decision is read back and is an approval.
abbrev finishing :
    DispatchDecisionRecord
    → Result DispatchDecisionError (RepositoryState × DispatchDecision × DispatchDecision)
finishing new = do
  (repository, decision) ← append empty_repository new 0
  found ← get repository decision.dispatch_decision_id "org"
  guard (found.outcome == approved) not_found
  ok (repository, decision, found)

abbrev run : Result DispatchDecisionError (RepositoryState × DispatchDecision × DispatchDecision)
run = prepared >>= finishing

run_ok : is_ok run ≡ true
unfolding world
run_ok = refl

-- What the run leads to, step by step.
record Run : Type 0 where
  pub new : DispatchDecisionRecord
  pub repository : RepositoryState
  pub decision : DispatchDecision
  pub found : DispatchDecision
  pub made : prepare sources request 0 "k" (moment 30) ≡ ok new
  pub stored : append empty_repository new 0 ≡ ok (repository, decision)
  pub read : get repository decision.dispatch_decision_id "org" ≡ ok found
  pub approval : found.outcome ≡ approved

whole : Run
whole =
    let (result, h) = is_ok→ok run run_ok in
    let (new, made, h1) = >>=-eq-ok prepared finishing h in
    let ((repository, decision), stored, h2) = >>=-eq-ok (append empty_repository new 0) _ h1 in
    let (found, read, h3) = >>=-eq-ok (get repository decision.dispatch_decision_id "org") _ h2 in
    let (u, tested, h4) = >>=-eq-ok (guard (found.outcome == approved) not_found) _ h3 in
    record {
      new = new;
      repository = repository;
      decision = decision;
      found = found;
      made = made;
      stored = stored;
      read = read;
      approval = ==→≡ found.outcome approved (guard-eq-ok _ not_found tested);
    }

abbrev pending : System
pending = record (starting sources) {
  pending = record { new = whole.new; expected_version = 0 } ∷ [];
}

abbrev final : System
final = record pending { repository = whole.repository }

reached : Reach (starting sources) final
reached = next (next stay (Step.begin request 0 "k" (moment 30) whole.new whole.made)) (
    Step.finish (record { new = whole.new; expected_version = 0 }) whole.repository whole.decision
      (In.here refl) whole.stored)

reconstruct_reproduces_example :
    reconstruct sources whole.repository whole.decision.dispatch_decision_id "org" ≡ ok whole.found
reconstruct_reproduces_example =
    reconstruct_reproduces plain-InterpreterLaws sources reached whole.decision.dispatch_decision_id
      "org" whole.found whole.read

approved_supported_example :
    (r : DispatchRequest) × (e : VerifiedDispatchEvidence) × (policy : RegisteredDispatchPolicy)
    × (resolve sources r ≡ ok (e, policy))
    × (r.organization_id ≡ "org")
    × Verified r e
    × Offerable e
    × MadeOf e policy whole.found
approved_supported_example =
    approved_supported plain-InterpreterLaws sources reached whole.decision.dispatch_decision_id
      "org" whole.found whole.read whole.approval
