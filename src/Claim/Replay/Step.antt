-- ===== src/Claim/Replay/Step.antt =====
-- The event that `evaluate` builds in a derived state is the one that `_replay` rebuilds there.
use edgeiq.Base.{◌+◌, String, ◌≡◌, ok, arith, is_ok→ok}
use edgeiq.Platform.{Bytes, DateTime, Interpreter, InterpreterLaws}
use edgeiq.Claim.Domain.{WorkClaimRequest, WorkClaimEvent, lineage_key}
use edgeiq.Claim.Policy.{WorkClaimDerivedState, WorkClaimDecision, decide}
use edgeiq.Claim.Serialization.Build.{build_work_claim_event}
use edgeiq.Claim.Serialization.Build.Built.{Built, build-Built}
use edgeiq.Claim.State.{advance_state}
use edgeiq.Claim.State.Agreement.{IsCoherent, decide-advance_state, advance_state-IsCoherent}
use edgeiq.Claim.State.Ids.{HasFixedIds, advance_state-HasFixedIds, decided_cause}
use edgeiq.Claim.Replay.{Sources, Resolved, resolve, decide_and_build, replay_record}

-- What a history's derived state satisfies.
pub record IsDerived ⦃p : Interpreter⦄ (s : WorkClaimDerivedState) : Type 0 where
  pub coherent : IsCoherent s
  pub fixed_ids : HasFixedIds s

module _ ⦃p : Interpreter⦄ (laws : InterpreterLaws p) (sources : Sources)
    (request : WorkClaimRequest) (e : Resolved) (s : WorkClaimDerivedState) (d : WorkClaimDecision)
    (identity : String) (now : DateTime) (event : WorkClaimEvent) (input content : Bytes)
    (resolved : resolve sources request ≡ ok e)
    (expected : request.expected_lineage_version ≡ s.lineage_version)
    (decided : decide e.policy request e.dispatch e.claimant s ≡ ok d)
    (built : build_work_claim_event request e.dispatch e.claimant e.policy d
        (s.lineage_version + 1)
        identity
        now
      ≡ ok (event, input, content))
    (derived : IsDerived s) where
  facts :
      Built request e.dispatch e.claimant e.policy d
        (s.lineage_version + 1)
        identity
        now
        event
        input
        content
  facts =
      build-Built request e.dispatch e.claimant e.policy d (s.lineage_version + 1) identity now
        event input content built laws

  advanced : (s' : WorkClaimDerivedState) × (advance_state s event ≡ ok s')
  advanced = is_ok→ok (advance_state s event) (
      decide-advance_state e.policy request e.dispatch e.claimant s event decided
        (record {
          event_type = facts.event_type;
          generation = facts.generation;
          fence = facts.fence;
          causal =
              decided_cause e.policy request e.dispatch e.claimant s derived.fixed_ids decided
                facts.causal;
          version = facts.version_kept;
        })
        derived.coherent)

  rebuilt_again :
      decide_and_build e request s identity event.recorded_at ≡ ok (event, input, content)
  unfolding decide_and_build
  rebuilt_again = rw (decided, facts.again)

  pub replay_record-built :
      (s' : WorkClaimDerivedState) × (replay_record sources (lineage_key request) s (record {
        request = request;
        event = event;
        idempotency_identity = identity;
        canonical_input_content = input;
        canonical_event_content = content;
      })
        ≡ ok (s', event))
      × (advance_state s event ≡ ok s')
      × IsDerived s'
  unfolding replay_record
  replay_record-built =
      let (s', a) = advanced in
      let b = facts in
      let r = rebuilt_again in
      (
        s',
        ground (arith, b.lineage, b.verified, b.input_made, r, a),
        a,
        record {
          coherent = advance_state-IsCoherent s event derived.coherent a;
          fixed_ids = advance_state-HasFixedIds s event derived.fixed_ids b.id_fixed a;
        },
      )
