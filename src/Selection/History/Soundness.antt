-- ===== src/Selection/History/Soundness.antt =====
-- What holds of every history that `append` builds.
use edgeiq.Base.{
  ℕ, ◌+◌, String, ◌≡◌, refl, sym, ap, subst, ◌⊎◌, inl, inr, some, List, [], ◌∷◌, ◌++◌, ok, arith,
  put-cases, put, In, In-append-last, In-append-cases, In-prefix, length, text_eq, String_discrete,
  empty_dict,
}
use edgeiq.Platform.{DateTime}
use edgeiq.Selection.Domain.{WorkerSelection, WorkerSelectionHistoryRecord}
use edgeiq.Selection.History.{
  StreamKey, StreamKey_discrete, stream_key_eq, OperationKey, operation_key_eq, HistoryState,
  empty_history, stream, stream_key, operation_key, accepted, publish, append,
}
use edgeiq.Selection.History.Growth.{
  Appended, append-Appended, stream-publish_self, stream-publish_ne, by_id-publish_self,
  by_id-publish_ne, Grows, append-Grows,
}

-- The versions are numbered from `n` on.
abbrev pub Numbered : ℕ → List WorkerSelectionHistoryRecord → Type 0
Numbered n [] = Unit
Numbered n (x ∷ xs) = (x.selection.version ≡ n) × Numbered (n + 1) xs

Numbered-append :
    (n : ℕ) (xs : List WorkerSelectionHistoryRecord) (x : WorkerSelectionHistoryRecord)
    → Numbered n xs
    → x.selection.version ≡ n + length xs
    → Numbered n (xs ++ x ∷ [])
Numbered-append n [] x h e = (omega arith, tt)
Numbered-append n (y ∷ ys) x h e = (h.0, Numbered-append (n + 1) ys x h.1 (omega arith))

-- The indexes hold the streams' records under their identities, the versions of a stream count from 1,
-- and what is stored satisfies `P`.
pub record IsSound (P : WorkerSelectionHistoryRecord → Type 0) (h : HistoryState) : Type 0 where
  pub by_id_listed :
      (id : String) (x : WorkerSelectionHistoryRecord)
      → h.by_id id ≡ some x
      → (x.selection.selection_id ≡ id) × In x (stream h (stream_key x.selection))
  pub listed :
      (k : StreamKey) (x : WorkerSelectionHistoryRecord)
      → In x (stream h k)
      → (stream_key x.selection ≡ k) × (h.by_id x.selection.selection_id ≡ some x) × P x
  pub operations :
      (k : OperationKey) (x : WorkerSelectionHistoryRecord)
      → h.idempotency k ≡ some x
      → h.by_id x.selection.selection_id ≡ some x
  pub numbered : (k : StreamKey) → Numbered 1 (stream h k)

module _ (P : WorkerSelectionHistoryRecord → Type 0) where
  pub empty-IsSound : IsSound P empty_history
  unfolding empty_dict
  empty-IsSound = record {
    by_id_listed = λ id x h. cc;
    listed = λ k x i. elim i [ ];
    operations = λ k x h. cc;
    numbered = λ k. tt;
  }

-- The last record of a published stream, and the others.
published_cases :
    (h : HistoryState) (key : OperationKey) (x : WorkerSelectionHistoryRecord) (k : StreamKey)
    (y : WorkerSelectionHistoryRecord)
    → In y (stream (publish h key x) k)
    → In y (stream h k) ⊎ ((y ≡ x) × (stream_key x.selection ≡ k))
published_cases h key x k y i = elim (StreamKey_discrete (stream_key x.selection) k) [
  | yes q ↦
      elim (In-append-cases (stream h (stream_key x.selection)) x
        (rw (← q, stream-publish_self h key x) at i)) [
          | inl old ↦ inl (rw (← q) old)
          | inr last ↦ inr (last, q)
        ]
  | no n ↦ inl (rw (stream-publish_ne h key x k n) at i)
]

operation_cases :
    (h : HistoryState) (key : OperationKey) (x : WorkerSelectionHistoryRecord) (k : OperationKey)
    (y : WorkerSelectionHistoryRecord)
    → (publish h key x).idempotency k ≡ some y
    → (x ≡ y) ⊎ (h.idempotency k ≡ some y)
unfolding publish
operation_cases h key x k y held = put-cases h.idempotency key k x held

module _ (P : WorkerSelectionHistoryRecord → Type 0) (h : HistoryState) (key : OperationKey)
    (x : WorkerSelectionHistoryRecord) (g : Grows h (publish h key x)) (sound : IsSound P h) where
  published_by_id :
      (id : String) (y : WorkerSelectionHistoryRecord)
      → (publish h key x).by_id id ≡ some y
      → (y.selection.selection_id ≡ id) × In y (stream (publish h key x) (stream_key y.selection))
  published_by_id id y held = elim (String_discrete x.selection.selection_id id) [
    | yes q ↦
        let same : x ≡ y = cc (by_id-publish_self h key x, ap (publish h key x).by_id q) in
        subst
          (λ (z : WorkerSelectionHistoryRecord).
            (z.selection.selection_id ≡ id)
            × In z (stream (publish h key x) (stream_key z.selection)))
          same (q, rw (stream-publish_self h key x) (In-append-last _ x))
    | no n ↦
        let (is_id, old) = sound.by_id_listed id y (rw (by_id-publish_ne h key x id n) at held) in
        (is_id, In-prefix (g.streams (stream_key y.selection)) old)
  ]

  published_listed :
      P x
      → (k : StreamKey) (y : WorkerSelectionHistoryRecord) → In y (stream (publish h key x) k)
      → (stream_key y.selection ≡ k)
        × ((publish h key x).by_id y.selection.selection_id ≡ some y)
        × P y
  published_listed px k y i = elim (published_cases h key x k y i) [
    | inl old ↦ let (own, held, py) = sound.listed k y old in (own, g.by_id.kept _ y held, py)
    | inr (same, own) ↦
        subst
          (λ (z : WorkerSelectionHistoryRecord).
            (stream_key z.selection ≡ k)
            × ((publish h key x).by_id z.selection.selection_id ≡ some z)
            × P z)
          (sym same) (own, by_id-publish_self h key x, px)
  ]

  published_operations :
      (k : OperationKey) (y : WorkerSelectionHistoryRecord)
      → (publish h key x).idempotency k ≡ some y
      → (publish h key x).by_id y.selection.selection_id ≡ some y
  published_operations k y held = elim (operation_cases h key x k y held) [
    | inl same ↦
        subst
          (λ (z : WorkerSelectionHistoryRecord).
            (publish h key x).by_id z.selection.selection_id ≡ some z)
          same (by_id-publish_self h key x)
    | inr old ↦ g.by_id.kept _ y (sound.operations k y old)
  ]

  published-Numbered :
      x.selection.version ≡ length (stream h (stream_key x.selection)) + 1
      → (k : StreamKey) → Numbered 1 (stream (publish h key x) k)
  published-Numbered e k = elim (StreamKey_discrete (stream_key x.selection) k) [
    | yes q ↦
        subst (λ j. Numbered 1 (stream (publish h key x) j)) q
          (rw (stream-publish_self h key x)
            (Numbered-append 1 _ x (sound.numbered (stream_key x.selection)) (omega (arith, e))))
    | no n ↦ rw (stream-publish_ne h key x k n) (sound.numbered k)
  ]

  publish-IsSound :
      P x
      → x.selection.version ≡ length (stream h (stream_key x.selection)) + 1
      → IsSound P (publish h key x)
  publish-IsSound px e = record {
    by_id_listed = published_by_id;
    listed = published_listed px;
    operations = published_operations;
    numbered = published-Numbered e;
  }

module _ (P : WorkerSelectionHistoryRecord → Type 0) (h : HistoryState) (sound : IsSound P h) where
  identified-IsSound :
      (key : OperationKey) (id : String) (prior : WorkerSelectionHistoryRecord)
      → h.by_id id ≡ some prior
      → IsSound P (record h { idempotency = put h.idempotency key prior })
  identified-IsSound key id prior named = record {
    by_id_listed = sound.by_id_listed;
    listed = sound.listed;
    operations = λ k x held. elim (put-cases h.idempotency key k prior held) [
      | inl same ↦
          let (is_id, _) = sound.by_id_listed id prior named in
          cc (ap (λ (z : WorkerSelectionHistoryRecord). z.selection.selection_id) same)
      | inr old ↦ sound.operations k x old
    ];
    numbered = sound.numbered;
  }

  -- An `append` that returns keeps the history sound, if the record that it may store satisfies `P`.
  pub append-IsSound :
      (now : DateTime) (new : WorkerSelectionHistoryRecord) (version : ℕ) {h' : HistoryState}
      {s : WorkerSelection}
      → (version ≡ length (stream h (stream_key new.selection)) → P (accepted now h new))
      → append now h new version ≡ ok (h', s)
      → IsSound P h'
  unfolding accepted
  append-IsSound now new version fit r = elim (append-Appended now h new version r) [
    | Appended.retried prior held same unchanged returned ↦ rw unchanged sound
    | Appended.identified prior unused named counted same indexed returned ↦
        rw indexed (identified-IsSound (operation_key new) _ prior named)
    | Appended.stored unused fresh counted published returned ↦ rw published (
        publish-IsSound P h (operation_key new) (accepted now h new)
          (rw (sym published) (append-Grows now h new version r)) sound (fit counted) refl)
  ]
