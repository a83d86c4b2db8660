-- ===== src/Claim/Replay/Rebuilt.antt =====
-- What `_replay` rebuilds under each identity.
use edgeiq.Base.{
  String, ◌≡◌, refl, ap, ◌∙◌, some, List, [], ◌∷◌, ok, arith, >>=-eq-ok, text_eq, String_discrete,
  Dict, put, put_self, put-ne, In, here, there, subst, ok-injective,
}
use edgeiq.Platform.{Interpreter}
use edgeiq.Claim.Domain.{WorkClaimEvent, WorkClaimRecord, LineageKey}
use edgeiq.Claim.Policy.{WorkClaimDerivedState}
use edgeiq.Claim.State.{advance_state}
use edgeiq.Claim.Replay.{Sources, replay_record, replay_from}

module _ ⦃p : Interpreter⦄ (sources : Sources) (key : LineageKey) where
  -- A round that does not raise rebuilds the retained event, and advances by it.
  pub replay_record-advance :
      (s : WorkClaimDerivedState) (r : WorkClaimRecord) {s' : WorkClaimDerivedState}
      {event : WorkClaimEvent}
      → replay_record sources key s r ≡ ok (s', event)
      → (event ≡ r.event) × (advance_state s r.event ≡ ok s')
  unfolding replay_record
  replay_record-advance s r h = ground arith

  -- The event under `id` is `event`, wherever it stands.
  abbrev pub Only : String → WorkClaimEvent → List WorkClaimRecord → Type 0
  Only id event rs = (y : WorkClaimRecord) → In y rs → y.event.event_id ≡ id → y.event ≡ event

  rebuilt_put :
      (m : Dict String WorkClaimEvent) (r : WorkClaimRecord) (id : String) (event : WorkClaimEvent)
      → m id ≡ some event
      → (r.event.event_id ≡ id → r.event ≡ event)
      → put m r.event.event_id r.event id ≡ some event
  rebuilt_put m r id event h only = elim (String_discrete r.event.event_id id) [
    | yes q ↦
        subst (λ j. put m r.event.event_id r.event j ≡ some event) q
          (put_self m _ r.event ∙ ap some (only q))
    | no n ↦ put-ne m _ id r.event n ∙ h
  ]

  rebuilt_kept :
      (s : WorkClaimDerivedState) (m : Dict String WorkClaimEvent) (rs : List WorkClaimRecord)
      (id : String) (event : WorkClaimEvent) {s' : WorkClaimDerivedState}
      {m' : Dict String WorkClaimEvent}
      → replay_from sources key s m rs ≡ ok (s', m')
      → m id ≡ some event
      → Only id event rs
      → m' id ≡ some event
  unfolding replay_from
  rebuilt_kept s m [] id event h held only = cc (
      ap (λ (d : Dict String WorkClaimEvent). d id)
        (ap (λ (t : WorkClaimDerivedState × Dict String WorkClaimEvent). t.1) (ok-injective h)))
  rebuilt_kept s m (r ∷ rs) id event h held only =
      let ((t, made), done, rest) = >>=-eq-ok (replay_record sources key s r) _ h in
      let same = (replay_record-advance s r done).0 in
      rebuilt_kept t (put m made.event_id made) rs id event rest
        (rw same (rebuilt_put m r id event held (only r (here refl)))) (λ y i. only y (there i))

  pub rebuilt_listed :
      (s : WorkClaimDerivedState) (m : Dict String WorkClaimEvent) (rs : List WorkClaimRecord)
      (x : WorkClaimRecord) {s' : WorkClaimDerivedState} {m' : Dict String WorkClaimEvent}
      → replay_from sources key s m rs ≡ ok (s', m')
      → In x rs
      → Only x.event.event_id x.event rs
      → m' x.event.event_id ≡ some x.event
  unfolding replay_from
  rebuilt_listed s m [] x h i only = elim i [ ]
  rebuilt_listed s m (r ∷ rs) x h (here e) only =
      let ((t, made), done, rest) = >>=-eq-ok (replay_record sources key s r) _ h in
      let same = (replay_record-advance s r done).0 in
      rebuilt_kept t (put m made.event_id made) rs x.event.event_id x.event rest
        (rw (same, e) (put_self m r.event.event_id r.event)) (λ y j. only y (there j))
  rebuilt_listed s m (r ∷ rs) x h (there i) only =
      let ((t, made), done, rest) = >>=-eq-ok (replay_record sources key s r) _ h in
      rebuilt_listed t (put m made.event_id made) rs x rest i (λ y j. only y (there j))
