-- ===== src/Claim/Replay/History.antt =====
-- Histories that `_replay` takes: they grow by built events, and by nothing that evidence adds.
use edgeiq.Base.{
  String, ◌≡◌, refl, inl, inr, List, [], ◌∷◌, ◌++◌, ok, arith, >>=-eq-ok, Result-cases, text_eq,
  Dict, put, empty_dict, All,
}
use edgeiq.Platform.{Interpreter}
use edgeiq.Claim.Domain.{WorkClaimEvent, WorkClaimRecord, LineageKey, lineage_key}
use edgeiq.Claim.Policy.{WorkClaimDerivedState, initial_state}
use edgeiq.Claim.Replay.{Sources, resolve, replay_record, replay_from, replay}
use edgeiq.Claim.Replay.Stable.{SourcesExtend, resolve-Extends}

module _ ⦃p : Interpreter⦄ (sources : Sources) (key : LineageKey) where
  pub replay_from-append :
      (s : WorkClaimDerivedState) (m : Dict String WorkClaimEvent) (rs : List WorkClaimRecord)
      (r : WorkClaimRecord) {s' s'' : WorkClaimDerivedState} {m' : Dict String WorkClaimEvent}
      {event : WorkClaimEvent}
      → replay_from sources key s m rs ≡ ok (s', m')
      → replay_record sources key s' r ≡ ok (s'', event)
      → replay_from sources key s m (rs ++ r ∷ []) ≡ ok (s'', put m' event.event_id event)
  unfolding replay_from
  replay_from-append s m [] r h k = ground arith
  replay_from-append s m (x ∷ rs) r h k =
      let ((t, made), done, rest) = >>=-eq-ok (replay_record sources key s x) _ h in
      rw done (replay_from-append t (put m made.event_id made) rs r rest k)

  pub replay-eq-replay_from :
      (rs : List WorkClaimRecord)
      → All (λ r. lineage_key r.request ≡ key) rs
      → replay sources rs ≡ replay_from sources key initial_state empty_dict rs
  unfolding replay
  replay-eq-replay_from [] h = unfold replay_from in refl
  replay-eq-replay_from (r ∷ rs) h = rw h.0

module _ ⦃p : Interpreter⦄ (a b : Sources) (key : LineageKey) (x : SourcesExtend a b) where
  pub replay_record-Extends :
      (s : WorkClaimDerivedState) (r : WorkClaimRecord) {t : WorkClaimDerivedState × WorkClaimEvent}
      → replay_record a key s r ≡ ok t
      → replay_record b key s r ≡ ok t
  unfolding replay_record
  replay_record-Extends s r h = elim (Result-cases (resolve a r.request)) [
    | inl (e, found) ↦ let found' = resolve-Extends a b r.request x found in ground arith
    | inr (_, missing) ↦ ground arith
  ]

  pub replay_from-Extends :
      (s : WorkClaimDerivedState) (m : Dict String WorkClaimEvent) (rs : List WorkClaimRecord)
      {t : WorkClaimDerivedState × Dict String WorkClaimEvent}
      → replay_from a key s m rs ≡ ok t
      → replay_from b key s m rs ≡ ok t
  unfolding replay_from
  replay_from-Extends s m [] h = h
  replay_from-Extends s m (r ∷ rs) h =
      let ((s', event), done, rest) = >>=-eq-ok (replay_record a key s r) _ h in
      rw (replay_record-Extends s r done)
        (replay_from-Extends s' (put m event.event_id event) rs rest)
