-- ===== src/Selection/History/Growth.antt =====
-- What one `append` does.
use edgeiq.Base.{
  ℕ, String, ◌≡◌, refl, subst, Option, none, some, [], ◌∷◌, ◌++◌, ok, err, arith, put, put_self,
  put-ne, length, text_eq, IsPrefix, IsPrefix-refl, IsPrefix-append, IsPrefix-trans,
}
use edgeiq.Platform.{DateTime}
use edgeiq.Platform.Evidence.Immutable.{Extends, Extends-refl, Extends-trans, put-Extends}
use edgeiq.Selection.Domain.{idempotency_conflict, WorkerSelection, WorkerSelectionHistoryRecord}
use edgeiq.Selection.History.{
  StreamKey, StreamKey_discrete, stream_key_eq, OperationKey, operation_key_eq, HistoryState,
  stream, stream_key, operation_key, accepted, publish, append_checked, append,
}

-- A call that returned found a record of its operation key, or found one of its selection's identity at
-- the current version, or stored its own record there.
pub data Appended (now : DateTime) (h : HistoryState) (new : WorkerSelectionHistoryRecord)
    (version : ℕ) (h' : HistoryState) (s : WorkerSelection) : Type 0 where
  retried :
      (prior : WorkerSelectionHistoryRecord)
      → h.idempotency (operation_key new) ≡ some prior
      → prior.canonical_input_hash ≡ new.canonical_input_hash
      → h' ≡ h
      → s ≡ prior.selection
      → Appended now h new version h' s
  identified :
      (prior : WorkerSelectionHistoryRecord)
      → h.idempotency (operation_key new) ≡ none
      → h.by_id new.selection.selection_id ≡ some prior
      → version ≡ length (stream h (stream_key new.selection))
      → prior.canonical_input_hash ≡ new.canonical_input_hash
      → h' ≡ record h { idempotency = put h.idempotency (operation_key new) prior }
      → s ≡ prior.selection
      → Appended now h new version h' s
  stored :
      h.idempotency (operation_key new) ≡ none
      → h.by_id new.selection.selection_id ≡ none
      → version ≡ length (stream h (stream_key new.selection))
      → h' ≡ publish h (operation_key new) (accepted now h new)
      → s ≡ (accepted now h new).selection
      → Appended now h new version h' s

module _ (now : DateTime) (h : HistoryState) (new : WorkerSelectionHistoryRecord) (version : ℕ)
    {h' : HistoryState} {s : WorkerSelection} where
  append_found :
      (o i : Option WorkerSelectionHistoryRecord)
      → h.idempotency (operation_key new) ≡ o
      → h.by_id new.selection.selection_id ≡ i
      → append_checked now h new version o i ≡ ok (h', s)
      → Appended now h new version h' s
  unfolding append_checked
  append_found (some prior) i held named r =
      Appended.retried prior held (ground arith) (ground arith) (ground arith)
  append_found none (some prior) held named r =
      Appended.identified prior held named (ground arith) (ground arith) (ground arith)
        (ground arith)
  append_found none none held named r =
      Appended.stored held named (ground arith) (ground arith) (ground arith)

  pub append-Appended : append now h new version ≡ ok (h', s) → Appended now h new version h' s
  unfolding append
  append-Appended r = append_found _ _ refl refl r

-- A record under the operation key answers the call, or refuses another input.
pub append_held :
    (now : DateTime) (h : HistoryState) (new prior : WorkerSelectionHistoryRecord) (version : ℕ)
    → h.idempotency (operation_key new) ≡ some prior
    → (prior.canonical_input_hash ≡ new.canonical_input_hash
        → append now h new version ≡ ok (h, prior.selection))
      × (¬ (prior.canonical_input_hash ≡ new.canonical_input_hash)
          → append now h new version ≡ err idempotency_conflict)
unfolding append append_checked
append_held now h new prior version held = (λ e. ground (arith, held), λ n. ground (arith, held))

-- A new key and a new identity at the current version are stored.
pub append_new :
    (now : DateTime) (h : HistoryState) (new : WorkerSelectionHistoryRecord) (version : ℕ)
    → h.idempotency (operation_key new) ≡ none
    → h.by_id new.selection.selection_id ≡ none
    → version ≡ length (stream h (stream_key new.selection))
    → append now h new version
      ≡ ok (publish h (operation_key new) (accepted now h new), (accepted now h new).selection)
unfolding append append_checked
append_new now h new version unused fresh counted = ground (arith, unused, fresh, counted)

module _ (h : HistoryState) (key : OperationKey) (x : WorkerSelectionHistoryRecord) where
  pub stream-publish_self :
      stream (publish h key x) (stream_key x.selection)
      ≡ stream h (stream_key x.selection) ++ x ∷ []
  unfolding publish
  stream-publish_self = rw (put_self h.streams (stream_key x.selection) _)

  pub stream-publish_ne :
      (k : StreamKey) → ¬ (stream_key x.selection ≡ k) → stream (publish h key x) k ≡ stream h k
  unfolding publish
  stream-publish_ne k n = rw (put-ne h.streams (stream_key x.selection) k _ n)

  pub by_id-publish_self : (publish h key x).by_id x.selection.selection_id ≡ some x
  unfolding publish
  by_id-publish_self = put_self h.by_id x.selection.selection_id x

  pub by_id-publish_ne :
      (id : String) → ¬ (x.selection.selection_id ≡ id) → (publish h key x).by_id id ≡ h.by_id id
  unfolding publish
  by_id-publish_ne id n = put-ne h.by_id x.selection.selection_id id x n

  -- An identity that is new leaves the others as they were.
  pub by_id-publish-Extends :
      h.by_id x.selection.selection_id ≡ none → Extends h.by_id (publish h key x).by_id
  unfolding publish
  by_id-publish-Extends fresh = put-Extends h.by_id x.selection.selection_id x fresh

  stream-publish-IsPrefix : (k : StreamKey) → IsPrefix (stream h k) (stream (publish h key x) k)
  stream-publish-IsPrefix k = elim (StreamKey_discrete (stream_key x.selection) k) [
    | yes q ↦
        subst (λ j. IsPrefix (stream h j) (stream (publish h key x) j)) q
          (rw stream-publish_self (IsPrefix-append _ _ (x ∷ []) (IsPrefix-refl _)))
    | no n ↦ rw (stream-publish_ne k n) (IsPrefix-refl _)
  ]

-- A later history: streams are extended, identities and operation keys keep their records.
pub record Grows (a b : HistoryState) : Type 0 where
  pub streams : (k : StreamKey) → IsPrefix (stream a k) (stream b k)
  pub by_id : Extends a.by_id b.by_id
  pub idempotency : Extends a.idempotency b.idempotency

pub Grows-refl : (a : HistoryState) → Grows a a
Grows-refl a = record {
  streams = λ k. IsPrefix-refl (stream a k);
  by_id = Extends-refl a.by_id;
  idempotency = Extends-refl a.idempotency;
}

pub Grows-trans : {a b c : HistoryState} → Grows a b → Grows b c → Grows a c
Grows-trans g h = record {
  streams = λ k. IsPrefix-trans (g.streams k) (h.streams k);
  by_id = Extends-trans g.by_id h.by_id;
  idempotency = Extends-trans g.idempotency h.idempotency;
}

publish-Grows :
    (h : HistoryState) (key : OperationKey) (x : WorkerSelectionHistoryRecord)
    → h.idempotency key ≡ none
    → h.by_id x.selection.selection_id ≡ none
    → Grows h (publish h key x)
unfolding publish
publish-Grows h key x unused fresh = record {
  streams = stream-publish-IsPrefix h key x;
  by_id = by_id-publish-Extends h key x fresh;
  idempotency = put-Extends h.idempotency key x unused;
}

-- Whatever `append` does, streams are only extended and no record is replaced.
pub append-Grows :
    (now : DateTime) (h : HistoryState) (new : WorkerSelectionHistoryRecord) (version : ℕ)
    {h' : HistoryState} {s : WorkerSelection}
    → append now h new version ≡ ok (h', s)
    → Grows h h'
unfolding accepted
append-Grows now h new version r = elim (append-Appended now h new version r) [
  | Appended.retried prior held same unchanged returned ↦ rw unchanged (Grows-refl h)
  | Appended.identified prior unused named counted same indexed returned ↦ rw indexed (record {
    streams = λ k. IsPrefix-refl (stream h k);
    by_id = Extends-refl h.by_id;
    idempotency = put-Extends h.idempotency (operation_key new) prior unused;
  })
  | Appended.stored unused fresh counted published returned ↦
      rw published (publish-Grows h (operation_key new) (accepted now h new) unused fresh)
]
