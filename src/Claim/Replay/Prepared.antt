-- ===== src/Claim/Replay/Prepared.antt =====
-- A record that `evaluate` prepares on a history extends it to one that `_replay` takes.
use edgeiq.Base.{
  ◌+◌, String, ◌≡◌, refl, ap, sym, ◌∙◌, List, [], ok, guard, ◌==◌, nat_eq, >>=-eq-ok, guard-eq-ok,
  ==→≡, ok-injective, text_eq, Dict, empty_dict, All, length,
}
use edgeiq.Platform.{DateTime, Interpreter}
use edgeiq.Claim.Domain.{
  version_conflict, WorkClaimRequest, WorkClaimEvent, WorkClaimRecord, LineageKey, lineage_key,
}
use edgeiq.Claim.Policy.{WorkClaimDerivedState, WorkClaimDecision, initial_state, decide}
use edgeiq.Claim.Serialization.Build.{build_work_claim_event}
use edgeiq.Claim.State.Agreement.{initial_state-IsCoherent}
use edgeiq.Claim.State.Ids.{initial_state-HasFixedIds}
use edgeiq.Claim.Replay.{Sources, Resolved, replay_from, replay, prepare}
use edgeiq.Claim.Replay.Stable.{SourcesExtend}
use edgeiq.Claim.Replay.Step.{IsDerived}
use edgeiq.Claim.Replay.History.{replay-eq-replay_from, replay_from-Extends}

-- The parts of a `prepare` that returned.
pub record Parts ⦃p : Interpreter⦄ (sources : Sources) (history : List WorkClaimRecord)
    (request : WorkClaimRequest) (e : Resolved) (identity : String) (now : DateTime)
    (new : WorkClaimRecord) : Type 0 where
  pub state : WorkClaimDerivedState
  pub rebuilt : Dict String WorkClaimEvent
  pub decision : WorkClaimDecision
  pub expected : new.request.expected_lineage_version ≡ length history
  pub replayed : replay sources history ≡ ok (state, rebuilt)
  pub decided : decide e.policy new.request e.dispatch e.claimant state ≡ ok decision
  pub built :
      build_work_claim_event new.request e.dispatch e.claimant e.policy decision
        (new.request.expected_lineage_version + 1)
        new.idempotency_identity
        now
      ≡ ok (new.event, new.canonical_input_content, new.canonical_event_content)
  pub same_request : new.request ≡ request
  pub same_identity : new.idempotency_identity ≡ identity

module _ ⦃p : Interpreter⦄ (sources : Sources) (history : List WorkClaimRecord)
    (request : WorkClaimRequest) (e : Resolved) (identity : String) (now : DateTime)
    {new : WorkClaimRecord} where
  pub prepare-Parts :
      prepare sources history request e identity now ≡ ok new
      → Parts sources history request e identity now new
  unfolding prepare
  prepare-Parts h =
      let (_, counted, h1) =
        >>=-eq-ok (guard (request.expected_lineage_version == length history) version_conflict) _
          h in
      let ((state, rebuilt), replayed, h2) = >>=-eq-ok (replay sources history) _ h1 in
      let (d, decided, h3) = >>=-eq-ok (decide e.policy request e.dispatch e.claimant state) _ h2 in
      let ((event, input, content), built, h4) =
        >>=-eq-ok
          (build_work_claim_event request e.dispatch e.claimant e.policy d
            (request.expected_lineage_version + 1) identity now)
          _ h3 in
      let made = ok-injective h4 in
      record {
        state = state;
        rebuilt = rebuilt;
        decision = d;
        expected = rw (← made) (==→≡ _ _ (guard-eq-ok _ version_conflict counted));
        replayed = replayed;
        decided = rw (← made) decided;
        built = rw (← made) built;
        same_request = sym (ap (λ (r : WorkClaimRecord). r.request) made);
        same_identity = sym (ap (λ (r : WorkClaimRecord). r.idempotency_identity) made);
      }

-- A history of one lineage that `_replay` takes.
pub record Replays ⦃p : Interpreter⦄ (sources : Sources) (key : LineageKey)
    (history : List WorkClaimRecord) : Type 0 where
  pub state : WorkClaimDerivedState
  pub rebuilt : Dict String WorkClaimEvent
  pub keys : All (λ (r : WorkClaimRecord). lineage_key r.request ≡ key) history
  pub runs : replay_from sources key initial_state empty_dict history ≡ ok (state, rebuilt)
  pub derived : IsDerived state
  pub version : state.lineage_version ≡ length history

module _ ⦃p : Interpreter⦄ where
  pub Replays-nil : (sources : Sources) (key : LineageKey) → Replays sources key []
  unfolding replay_from
  Replays-nil sources key = record {
    state = initial_state;
    rebuilt = empty_dict;
    keys = tt;
    runs = refl;
    derived = record { coherent = initial_state-IsCoherent; fixed_ids = initial_state-HasFixedIds };
    version = refl;
  }

  pub Replays-Extends :
      {a b : Sources} (key : LineageKey) (history : List WorkClaimRecord)
      → SourcesExtend a b
      → Replays a key history
      → Replays b key history
  Replays-Extends {a} {b} key history x r = record {
    state = r.state;
    rebuilt = r.rebuilt;
    keys = r.keys;
    runs = replay_from-Extends a b key x initial_state empty_dict history r.runs;
    derived = r.derived;
    version = r.version;
  }

  pub Replays-replay :
      (sources : Sources) (key : LineageKey) (history : List WorkClaimRecord)
      (r : Replays sources key history)
      → replay sources history ≡ ok (r.state, r.rebuilt)
  Replays-replay sources key history r = replay-eq-replay_from sources key history r.keys ∙ r.runs
