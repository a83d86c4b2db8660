-- ===== src/Selection/Service/Replay.antt =====
-- A selection that is stored is reproduced from its request.
use edgeiq.Base.{
  String, ◌≡◌, refl, sym, subst, some, none, ok, err, arith, ==-refl, text_eq, inl, inr,
  Option-cases,
}
use edgeiq.Platform.{Interpreter, DateTime}
use edgeiq.Selection.Domain.{Formats, replay_failed, WorkerSelection, WorkerSelectionHistoryRecord}
use edgeiq.Selection.Evaluator
use edgeiq.Selection.History.{HistoryState, get}
use edgeiq.Selection.Service.{replay, replay_record}
use edgeiq.Selection.Service.Reach.{Reach, Reach-IsSound, Genuine}

module _ ⦃p : Interpreter⦄ ⦃f : Formats⦄ where
  replay_computed :
      (x : WorkerSelectionHistoryRecord) (computed : WorkerSelection) (time : DateTime)
      → Evaluator.evaluate x.request computed.version ≡ ok computed
      → replay_record (some (record x { selection = record computed { recorded_at = some time } }))
        ≡ ok (record computed { recorded_at = some time })
  unfolding replay_record
  replay_computed x computed time h =
      rw
        (
          h,
          ==-refl computed.selection_id,
          ==-refl computed.canonical_hash,
          ==-refl computed.replay_metadata.replay_output_hash,
        )
        refl

  pub replay_record-Genuine :
      (x : WorkerSelectionHistoryRecord) → Genuine x → replay_record (some x) ≡ ok x.selection
  replay_record-Genuine x g =
      subst (λ s. replay_record (some (record x { selection = s })) ≡ ok s) (sym g.kept)
        (replay_computed x g.computed g.time g.evaluation)

  found_record :
      {h : HistoryState}
      → Reach h
      → (id : String) (x : WorkerSelectionHistoryRecord) → h.by_id id ≡ some x
      → replay_record (some x) ≡ ok x.selection
  found_record reached id x held =
      let sound = Reach-IsSound reached in
      let (is_id, place) = sound.by_id_listed id x held in
      let (own, same, genuine) = sound.listed _ x place in replay_record-Genuine x genuine

  -- In every state that calls of `evaluate` reach, `replay` returns the selection that `get` returns, the
  -- time of its recording included; an identity that `get` does not know fails.
  pub replay-eq-get :
      {h : HistoryState}
      → Reach h
      → (id : String)
      → ((s : WorkerSelection) → get h id ≡ some s → replay h id ≡ ok s)
        × (get h id ≡ none → replay h id ≡ err replay_failed)
  unfolding get replay
  replay-eq-get {h} reached id = elim (Option-cases (h.by_id id)) [
    | inl missing ↦
        (λ s e. ground (arith, missing), λ e. unfold replay_record in ground (arith, missing))
    | inr (x, held) ↦
        let replayed = found_record reached id x held in
        (λ s e. ground (arith, held, replayed), λ e. ground (arith, held))
  ]
