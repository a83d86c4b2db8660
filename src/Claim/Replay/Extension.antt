-- ===== src/Claim/Replay/Extension.antt =====
-- One more record: what `evaluate` prepares on a history that `_replay` takes, `_replay` takes after it.
use edgeiq.Base.{
  ◌+◌, String, ◌≡◌, ap, sym, ◌∙◌, List, [], ◌∷◌, ◌++◌, ok, arith, text_eq, Dict, put, All-append,
  ok-injective, length-append,
}
use edgeiq.Platform.{DateTime, Interpreter, InterpreterLaws}
use edgeiq.Claim.Domain.{WorkClaimRequest, WorkClaimEvent, WorkClaimRecord, lineage_key}
use edgeiq.Claim.Policy.{WorkClaimDerivedState}
use edgeiq.Claim.State.{advance_state}
use edgeiq.Claim.Replay.{Sources, Resolved, resolve, replay_record}
use edgeiq.Claim.Replay.Step.{IsDerived, replay_record-built}
use edgeiq.Claim.Replay.History.{replay_from-append}
use edgeiq.Claim.Replay.Prepared.{Parts, Replays, Replays-replay}

pub advance_state-version :
    (s : WorkClaimDerivedState) (event : WorkClaimEvent) {s' : WorkClaimDerivedState}
    → advance_state s event ≡ ok s'
    → s'.lineage_version ≡ s.lineage_version + 1
unfolding advance_state
advance_state-version s event h = ground arith

module _ ⦃p : Interpreter⦄ (laws : InterpreterLaws p) (sources : Sources)
    (history : List WorkClaimRecord) (request : WorkClaimRequest) (e : Resolved) (identity : String)
    (now : DateTime) (new : WorkClaimRecord)
    (parts : Parts sources history request e identity now new)
    (resolved : resolve sources request ≡ ok e)
    (before : Replays sources (lineage_key request) history) where
  same_state : before.state ≡ parts.state
  same_state =
      ap (λ (t : WorkClaimDerivedState × Dict String WorkClaimEvent). t.0)
        (ok-injective
          (sym (Replays-replay sources (lineage_key request) history before) ∙ parts.replayed))

  counted : new.request.expected_lineage_version ≡ before.state.lineage_version
  counted = parts.expected ∙ sym before.version

  pub replayed_next :
      (s' : WorkClaimDerivedState) × (replay_record sources
          (lineage_key new.request)
          before.state
          new
        ≡ ok (s', new.event))
      × (advance_state before.state new.event ≡ ok s')
      × IsDerived s'
  replayed_next =
      replay_record-built laws sources new.request e before.state parts.decision
        new.idempotency_identity now new.event new.canonical_input_content
        new.canonical_event_content (rw parts.same_request resolved) counted
        (rw same_state parts.decided) (rw (← counted) parts.built) before.derived

  pub Replays-prepared : Replays sources (lineage_key request) (history ++ new ∷ [])
  Replays-prepared =
      let (s', replayed, advanced, derived) = replayed_next in
      let on_key = ap lineage_key parts.same_request in
      record {
        state = s';
        rebuilt = put before.rebuilt new.event.event_id new.event;
        keys =
            All-append (λ (r : WorkClaimRecord). lineage_key r.request ≡ lineage_key request)
              history new before.keys on_key;
        runs =
            replay_from-append sources (lineage_key request) _ _ history new before.runs
              (rw (← on_key) replayed);
        derived = derived;
        version = omega (
          arith,
          advance_state-version before.state new.event advanced,
          before.version,
          length-append history (new ∷ []),
        );
      }
