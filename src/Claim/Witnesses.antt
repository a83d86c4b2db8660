-- ===== src/Claim/Witnesses.antt =====
-- The theorems on work claims, applied to the scenario.
use edgeiq.Base.{
  String, ◌≡◌, refl, ap, ◌∙◌, true, List, [], ◌∷◌, ok, is_ok, is_ok→ok, ok-injective, >>=-eq-ok,
  length, Dict,
}
use edgeiq.Platform.Plain.{plain, plain-InterpreterLaws}
use edgeiq.Claim.Domain.{
  WorkClaimRequest, WorkClaimEvent, WorkClaimEvaluationResult, LineageKey, existing_equivalent,
  lineage_key,
}
use edgeiq.Claim.Policy.{WorkClaimDerivedState}
use edgeiq.Claim.Repository.{RepositoryState, empty_repository, stream}
use edgeiq.Claim.Repository.Growth.{Grows, Grows-refl}
use edgeiq.Claim.Replay.{replay}
use edgeiq.Claim.Replay.Stable.{SourcesExtend-refl}
use edgeiq.Claim.Replay.Fences.{acceptances, fences, one_to, Increasing}
use edgeiq.Claim.Service.{evaluate, evaluate_through, evaluation, get, reconstruct}
use edgeiq.Claim.Service.Retry.{evaluate_retry}
use edgeiq.Claim.System.{System, starting, Reach, stay, next}
use edgeiq.Claim.System.Append.{history_immutable, evaluate-Reach}
use edgeiq.Claim.System.Replayable.{replay_total, reconstruct-eq-get}
use edgeiq.Claim.System.Fencing.{fences_consecutive, one_acceptance_per_generation}
use edgeiq.Claim.Service.Answers.{Readable, evaluate_through-get}
use edgeiq.Claim.Repository.Indexes.{empty-IsIndexed}
use edgeiq.Claim.Scenario.{
  sources, script, script_runs, serve, world, opening, moment, or_default, default_answer,
}
use edgeiq.Claim.SampleEvents.{created_event}

Reach-trans : {s t u : System} → Reach s t → Reach t u → Reach s u
Reach-trans r stay = r
Reach-trans r (next q st) = next (Reach-trans r q) st

-- Requests that are served one after another are a run of the system.
serve-Reach :
    (s : System) (qs : List WorkClaimRequest) (r : RepositoryState)
    → serve s.sources s.repository qs ≡ ok r
    → (t : System) × Reach s t × (t.sources ≡ s.sources) × (t.repository ≡ r)
unfolding serve
serve-Reach s [] r h = (s, stay, refl, ok-injective h)
serve-Reach s (q ∷ qs) r h =
    let ((r', result), first, rest) =
      >>=-eq-ok (evaluate s.sources s.repository q (moment 9000)) _ h in
    let (t, reach, same, left) = evaluate-Reach s q (moment 9000) r' result first in
    let (u, reach', same', left') = serve-Reach t qs r (rw (same, left) rest) in
    (u, Reach-trans reach reach', same' ∙ same, left')

abbrev began : System
began = starting sources

-- What the scenario leads to.
abbrev served : RepositoryState
served = (is_ok→ok (serve sources empty_repository script) script_runs).0

run : (t : System) × Reach began t × (t.sources ≡ sources) × (t.repository ≡ served)
run =
    serve-Reach began script served (is_ok→ok (serve sources empty_repository script) script_runs).1

abbrev final : System
final = run.0

abbrev key : LineageKey
key = ("org", "ctx", "plan", "item")

replay_total_example :
    (state : WorkClaimDerivedState) × (rebuilt : Dict String WorkClaimEvent) × (replay final.sources
        (stream final.repository key)
      ≡ ok (state, rebuilt))
    × (state.lineage_version ≡ length (stream final.repository key))
replay_total_example = replay_total plain-InterpreterLaws sources run.1 key

fences_consecutive_example :
    fences (acceptances (stream final.repository key))
    ≡ one_to (length (acceptances (stream final.repository key)))
fences_consecutive_example = fences_consecutive plain-InterpreterLaws sources run.1 key

one_acceptance_per_generation_example : Increasing 0 (acceptances (stream final.repository key))
one_acceptance_per_generation_example =
    one_acceptance_per_generation plain-InterpreterLaws sources run.1 key

history_immutable_example : Grows empty_repository final.repository
history_immutable_example = history_immutable began run.1

-- The first request alone.
opened_ok : is_ok (evaluate sources empty_repository opening (moment 9000)) ≡ true
unfolding world
opened_ok = refl

abbrev opened : RepositoryState × WorkClaimEvaluationResult
opened =
    or_default (empty_repository, evaluation existing_equivalent created_event)
      (evaluate sources empty_repository opening (moment 9000))

opening_result : evaluate sources empty_repository opening (moment 9000) ≡ ok opened
opening_result =
    default_answer _ (evaluate sources empty_repository opening (moment 9000)) opened_ok

opened_through :
    evaluate_through sources empty_repository empty_repository empty_repository opening
      (moment 9000)
    ≡ ok opened
unfolding evaluate
opened_through = opening_result

evaluate_through-get_example : Readable opened.0 (lineage_key opening) opened.1.event
evaluate_through-get_example =
    evaluate_through-get sources empty_repository empty_repository empty_repository opening
      (moment 9000) empty-IsIndexed empty-IsIndexed (Grows-refl empty_repository) opened_through

evaluate_retry_example :
    evaluate_through sources opened.0 opened.0 opened.0 opening (moment 9500)
    ≡ ok (opened.0, evaluation existing_equivalent opened.1.event)
evaluate_retry_example =
    evaluate_retry plain-InterpreterLaws opening sources sources empty_repository empty_repository
      empty_repository opened.0 (moment 9000) opened.1 opened_through (Grows-refl empty_repository)
      (SourcesExtend-refl sources) opened.0 opened.0 opened.0 (moment 9500) (Grows-refl opened.0)

-- The event of the first request, read back and rebuilt.
abbrev first_id : String
first_id = opened.1.event.event_id

abbrev found : WorkClaimEvent
found = or_default created_event (get opened.0 first_id "org" "ctx")

found_ok : is_ok (get opened.0 first_id "org" "ctx") ≡ true
unfolding world get
found_ok = refl

opening_run : (t : System) × Reach began t × (t.sources ≡ sources) × (t.repository ≡ opened.0)
opening_run = evaluate-Reach began opening (moment 9000) opened.0 opened.1 opening_result

abbrev after : System
after = opening_run.0

found_result : get after.repository first_id "org" "ctx" ≡ ok found
found_result =
    ap (λ r. get r first_id "org" "ctx") opening_run.3
    ∙ default_answer created_event (get opened.0 first_id "org" "ctx") found_ok

reconstruct-eq-get_example :
    reconstruct after.sources after.repository first_id "org" "ctx" ≡ ok found
reconstruct-eq-get_example =
    reconstruct-eq-get plain-InterpreterLaws sources opening_run.1 first_id "org" "ctx" found
      found_result
