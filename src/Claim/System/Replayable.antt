-- ===== src/Claim/System/Replayable.antt =====
-- Authoritative replay: what any threads have retained can be rebuilt from the evidence at any time.
use edgeiq.Base.{String, ◌≡◌, ap, inl, inr, some, ok, arith, Dict, length, Option-cases, In}
use edgeiq.Platform.{Interpreter, InterpreterLaws}
use edgeiq.Claim.Domain.{WorkClaimEvent, WorkClaimRecord, LineageKey, lineage_key}
use edgeiq.Claim.Policy.{WorkClaimDerivedState, initial_state}
use edgeiq.Claim.Repository.{RepositoryState, stream}
use edgeiq.Claim.Repository.Indexes.{IsIndexed}
use edgeiq.Claim.Replay.{Sources, replay}
use edgeiq.Claim.Replay.Prepared.{Replays-replay}
use edgeiq.Claim.Replay.Rebuilt.{rebuilt_listed}
use edgeiq.Claim.Service.{get, reconstruct}
use edgeiq.Claim.System.{System, starting, Reach}
use edgeiq.Claim.System.Invariant.{IsSound, starting-IsSound, Reach-IsSound}

-- Two listed records under one identity are one.
one_of_id :
    (r : RepositoryState) (k : LineageKey) (x y : WorkClaimRecord)
    → IsIndexed r
    → In x (stream r k)
    → In y (stream r k)
    → y.event.event_id ≡ x.event.event_id
    → y.event ≡ x.event
one_of_id r k x y h i j e = cc (h.listed_by_id k x i, h.listed_by_id k y j, ap r.by_id e)

module _ ⦃p : Interpreter⦄ (laws : InterpreterLaws p) (sources : Sources) {s : System}
    (reached : Reach (starting sources) s) where
  sound : IsSound s
  sound = Reach-IsSound laws (starting-IsSound sources) reached

  -- In every state that any interleaving of threads reaches, `_replay` of every lineage's history
  -- returns, and derives a state whose version is the history's length.
  pub replay_total :
      (k : LineageKey)
      → (state : WorkClaimDerivedState) × (rebuilt : Dict String WorkClaimEvent) × (replay s.sources
            (stream s.repository k)
          ≡ ok (state, rebuilt))
        × (state.lineage_version ≡ length (stream s.repository k))
  replay_total k =
      let r = sound.streams k in
      (r.state, r.rebuilt, Replays-replay s.sources k (stream s.repository k) r, r.version)

  rebuilt_record :
      (id : String) (x : WorkClaimRecord)
      → s.repository.by_id id ≡ some x
      → (state : WorkClaimDerivedState) × (rebuilt : Dict String WorkClaimEvent) × (replay s.sources
            (stream s.repository (lineage_key x.request))
          ≡ ok (state, rebuilt))
        × (rebuilt id ≡ some x.event)
  rebuilt_record id x held =
      let k = lineage_key x.request in
      let r = sound.streams k in
      let (is_id, listed) = sound.indexed.by_id_listed id x held in
      (
        r.state,
        r.rebuilt,
        Replays-replay s.sources k (stream s.repository k) r,
        rw (← is_id) (
            rebuilt_listed s.sources k initial_state _ (stream s.repository k) x r.runs listed
              (λ y j e. one_of_id s.repository k x y sound.indexed listed j e)),
      )

  -- An event that `get` returns is the one that `reconstruct` rebuilds from the evidence, in every
  -- state that any interleaving of threads reaches.
  pub reconstruct-eq-get :
      (id organization workload : String) (event : WorkClaimEvent)
      → get s.repository id organization workload ≡ ok event
      → reconstruct s.sources s.repository id organization workload ≡ ok event
  unfolding get reconstruct
  reconstruct-eq-get id organization workload event h =
      elim (Option-cases (s.repository.by_id id)) [
        | inl missing ↦ cc (rw missing at h)
        | inr (x, held) ↦
            let (state, rebuilt, replayed, listed) = rebuilt_record id x held in ground arith
      ]
