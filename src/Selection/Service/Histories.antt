-- ===== src/Selection/Service/Histories.antt =====
-- What a caller reads after a call of `evaluate`.
use edgeiq.Base.{
  ℕ, ◌+◌, String, ◌≡◌, refl, ap, subst, some, List, [], ◌∷◌, ok, arith, length, In, map,
}
use edgeiq.Platform.{Interpreter, DateTime}
use edgeiq.Selection.Domain.{
  Formats, WorkerSelectionRequest, WorkerSelection, WorkerSelectionHistoryRecord,
}
use edgeiq.Selection.History.{HistoryState, stream, get, history, current, last_of}
use edgeiq.Selection.History.Soundness.{Numbered}
use edgeiq.Selection.Service.{evaluate}
use edgeiq.Selection.Service.Reach.{Reach, Reach-IsSound}
use edgeiq.Selection.Service.Retry.{evaluate-Holds}

abbrev selection_of_record : WorkerSelectionHistoryRecord → WorkerSelection
selection_of_record x = x.selection

In-selection :
    {x : WorkerSelectionHistoryRecord} {xs : List WorkerSelectionHistoryRecord}
    → In x xs
    → In x.selection (map selection_of_record xs)
In-selection (In.here e) = In.here (ap selection_of_record e)
In-selection (In.there i) = In.there (In-selection i)

-- The versions of the selections count from `n` on.
abbrev pub Versioned : ℕ → List WorkerSelection → Type 0
Versioned n [] = Unit
Versioned n (s ∷ ss) = (s.version ≡ n) × Versioned (n + 1) ss

Numbered-Versioned :
    (n : ℕ) (xs : List WorkerSelectionHistoryRecord)
    → Numbered n xs
    → Versioned n (map selection_of_record xs)
Numbered-Versioned n [] h = tt
Numbered-Versioned n (x ∷ xs) h = (h.0, Numbered-Versioned (n + 1) xs h.1)

last_of-version :
    (n : ℕ) (ss : List WorkerSelection) {s : WorkerSelection}
    → Versioned n ss
    → last_of ss ≡ some s
    → s.version + 1 ≡ n + length ss
last_of-version n [] h e = cc
last_of-version n (t ∷ []) h e = ground (arith, h.0)
last_of-version n (t ∷ u ∷ ss) h e =
    let later = last_of-version (n + 1) (u ∷ ss) h.1 e in omega arith

module _ ⦃p : Interpreter⦄ ⦃f : Formats⦄ where
  -- In every state that calls of `evaluate` reach, the versions of a history count from 1, and the version
  -- of the current selection is the length of the history.
  pub history-Versioned :
      {h : HistoryState}
      → Reach h
      → (organization workload : String)
      → Versioned 1 (history h organization workload)
        × ((s : WorkerSelection)
            → current h organization workload ≡ some s
            → s.version ≡ length (history h organization workload))
  unfolding history current
  history-Versioned {h} reached organization workload =
      let numbered = (Reach-IsSound reached).numbered (organization, workload) in
      let versioned = Numbered-Versioned 1 (stream h (organization, workload)) numbered in
      (versioned, λ s e. omega (arith, last_of-version 1 _ versioned e))

  -- The selection that a call returns is what `get` then returns for its identity, and it stands in the
  -- history of its organization and workload.
  pub evaluate-get :
      (now : DateTime) {h : HistoryState} (request : WorkerSelectionRequest) (version : ℕ)
      (key : String) {h' : HistoryState} {s : WorkerSelection}
      → Reach h
      → evaluate now h request version key ≡ ok (h', s)
      → (get h' s.selection_id ≡ some s) × In s (history h' s.organization_id s.workload_context_id)
  unfolding get history
  evaluate-get now request version key {h'} reached r =
      let sound = Reach-IsSound (Reach.evaluated now request version key h' _ reached r) in
      let held = evaluate-Holds now _ request version key r in
      let listed = sound.operations _ held.found held.indexed in
      let (is_id, place) = sound.by_id_listed _ held.found listed in
      subst
        (λ (s : WorkerSelection).
          (get h' s.selection_id ≡ some s)
          × In s (history h' s.organization_id s.workload_context_id))
        held.kept (rw (get, listed) refl, In-selection place)
