-- ===== src/Claim/Repository/Indexes.antt =====
-- The indexes of the repository agree with its streams.
use edgeiq.Base.{
  ℕ, String, ◌≡◌, refl, sym, Option, none, List, [], ◌∷◌, ◌++◌, ap, ◌∙◌, subst, ◌⊎◌, inl, inr, some,
  ok, put_self, put-ne, In, text_eq, In-append-last, In-append-cases, In-prefix, String_discrete,
  empty_dict,
}
use edgeiq.Claim.Domain.{
  WorkClaimEvent, WorkClaimRecord, LineageKey, LineageKey_discrete, lineage_key, lineage_key_eq,
}
use edgeiq.Claim.Repository.{
  RepositoryState, IdempotencyKey, IdempotencyKey_discrete, empty_repository, idempotency_key_eq,
  stream, idempotency_key_of, publish, append,
}
use edgeiq.Claim.Repository.Growth.{
  append-cases, Grows, publish-Grows, stream-publish_self, stream-publish_ne,
}

-- The event of the last record.
abbrev pub last_event : List WorkClaimRecord → Option WorkClaimEvent
last_event [] = none
last_event (x ∷ []) = some x.event
last_event (x ∷ y ∷ xs) = last_event (y ∷ xs)

last_event-append :
    (xs : List WorkClaimRecord) (x : WorkClaimRecord) → last_event (xs ++ x ∷ []) ≡ some x.event
last_event-append [] x = refl
last_event-append (y ∷ []) x = refl
last_event-append (y ∷ z ∷ xs) x = last_event-append (z ∷ xs) x

-- Both identity indexes hold the streams' records under their keys and no others, and the index of current
-- events holds the event of each stream's last record and no other.
pub record IsIndexed (r : RepositoryState) : Type 0 where
  pub by_id_listed :
      (id : String) (x : WorkClaimRecord)
      → r.by_id id ≡ some x
      → (x.event.event_id ≡ id) × In x (stream r (lineage_key x.request))
  pub listed_by_id :
      (k : LineageKey) (x : WorkClaimRecord) → In x (stream r k) → r.by_id x.event.event_id ≡ some x
  pub listed_idempotency :
      (k : LineageKey) (x : WorkClaimRecord)
      → In x (stream r k)
      → r.idempotency (idempotency_key_of x) ≡ some x
  pub idempotency_listed :
      (k : IdempotencyKey) (x : WorkClaimRecord)
      → r.idempotency k ≡ some x
      → (idempotency_key_of x ≡ k) × In x (stream r (lineage_key x.request))
  pub current_last : (k : LineageKey) → r.current k ≡ last_event (stream r k)
  pub listed_key :
      (k : LineageKey) (x : WorkClaimRecord) → In x (stream r k) → lineage_key x.request ≡ k

pub empty-IsIndexed : IsIndexed empty_repository
unfolding empty_dict
empty-IsIndexed = record {
  by_id_listed = λ id x h. cc;
  listed_by_id = λ k x i. elim i [ ];
  listed_idempotency = λ k x i. elim i [ ];
  idempotency_listed = λ k x h. cc;
  current_last = λ k. refl;
  listed_key = λ k x i. elim i [ ];
}

-- The last record of a published stream, and the others.
published_cases :
    (r : RepositoryState) (new : WorkClaimRecord) (k : LineageKey) (x : WorkClaimRecord)
    → In x (stream (publish r new) k)
    → In x (stream r k) ⊎ ((x ≡ new) × (lineage_key new.request ≡ k))
published_cases r new k x i = elim (LineageKey_discrete (lineage_key new.request) k) [
  | yes q ↦
      elim (In-append-cases (stream r (lineage_key new.request)) new
        (rw (← q, stream-publish_self r new) at i)) [
          | inl old ↦ inl (rw (← q) old)
          | inr last ↦ inr (last, q)
        ]
  | no n ↦ inl (rw (stream-publish_ne r new k n) at i)
]

module _ (r : RepositoryState) (new : WorkClaimRecord) (g : Grows r (publish r new))
    (h : IsIndexed r) where
  new_listed : In new (stream (publish r new) (lineage_key new.request))
  new_listed = rw (stream-publish_self r new) (In-append-last _ new)

  published_id : (publish r new).by_id new.event.event_id ≡ some new
  unfolding publish
  published_id = put_self r.by_id new.event.event_id new

  published_id_ne :
      (id : String) → ¬ (new.event.event_id ≡ id) → (publish r new).by_id id ≡ r.by_id id
  unfolding publish
  published_id_ne id n = put-ne r.by_id new.event.event_id id new n

  published_key : (publish r new).idempotency (idempotency_key_of new) ≡ some new
  unfolding publish
  published_key = put_self r.idempotency (idempotency_key_of new) new

  published_by_id :
      (id : String) (x : WorkClaimRecord)
      → (publish r new).by_id id ≡ some x
      → (x.event.event_id ≡ id) × In x (stream (publish r new) (lineage_key x.request))
  published_by_id id x held = elim (String_discrete new.event.event_id id) [
    | yes q ↦
        let same : new ≡ x = cc (published_id, ap (publish r new).by_id q) in
        subst
          (λ (z : WorkClaimRecord).
            (z.event.event_id ≡ id) × In z (stream (publish r new) (lineage_key z.request)))
          same (q, new_listed)
    | no n ↦
        let (is_id, old) = h.by_id_listed id x (rw (published_id_ne id n) at held) in
        (is_id, In-prefix (g.streams (lineage_key x.request)) old)
  ]

  published_key_ne :
      (k : IdempotencyKey)
      → ¬ (idempotency_key_of new ≡ k)
      → (publish r new).idempotency k ≡ r.idempotency k
  unfolding publish
  published_key_ne k n = put-ne r.idempotency (idempotency_key_of new) k new n

  published_idempotency :
      (k : IdempotencyKey) (x : WorkClaimRecord)
      → (publish r new).idempotency k ≡ some x
      → (idempotency_key_of x ≡ k) × In x (stream (publish r new) (lineage_key x.request))
  published_idempotency k x held = elim (IdempotencyKey_discrete (idempotency_key_of new) k) [
    | yes q ↦
        let same : new ≡ x = cc (published_key, ap (publish r new).idempotency q) in
        subst
          (λ (z : WorkClaimRecord).
            (idempotency_key_of z ≡ k) × In z (stream (publish r new) (lineage_key z.request)))
          same (q, new_listed)
    | no n ↦
        let (is_key, old) = h.idempotency_listed k x (rw (published_key_ne k n) at held) in
        (is_key, In-prefix (g.streams (lineage_key x.request)) old)
  ]

  current_self : (publish r new).current (lineage_key new.request) ≡ some new.event
  unfolding publish
  current_self = put_self r.current (lineage_key new.request) new.event

  current_ne :
      (k : LineageKey) → ¬ (lineage_key new.request ≡ k) → (publish r new).current k ≡ r.current k
  unfolding publish
  current_ne k n = put-ne r.current (lineage_key new.request) k new.event n

  published_current :
      (k : LineageKey) → (publish r new).current k ≡ last_event (stream (publish r new) k)
  published_current k = elim (LineageKey_discrete (lineage_key new.request) k) [
    | yes q ↦
        subst (λ j. (publish r new).current j ≡ last_event (stream (publish r new) j)) q
          (current_self
            ∙ sym (
                ap last_event (stream-publish_self r new)
                ∙ last_event-append (stream r (lineage_key new.request)) new))
    | no n ↦ rw (current_ne k n, stream-publish_ne r new k n) (h.current_last k)
  ]

  pub publish-IsIndexed : IsIndexed (publish r new)
  publish-IsIndexed = record {
    by_id_listed = published_by_id;
    listed_by_id = λ k x i. elim (published_cases r new k x i) [
      | inl old ↦ g.by_id.kept _ x (h.listed_by_id k x old)
      | inr last ↦ rw last.0 published_id
    ];
    listed_idempotency = λ k x i. elim (published_cases r new k x i) [
      | inl old ↦ g.idempotency.kept _ x (h.listed_idempotency k x old)
      | inr last ↦ rw last.0 published_key
    ];
    idempotency_listed = published_idempotency;
    current_last = published_current;
    listed_key = λ k x i. elim (published_cases r new k x i) [
      | inl old ↦ h.listed_key k x old
      | inr last ↦ ap (λ (z : WorkClaimRecord). lineage_key z.request) last.0 ∙ last.1
    ];
  }

-- An `append` that returns keeps the indexes, whatever it was given: each record of a stream is held under
-- its event's identity and under its idempotency key, both indexes hold no other record and under no other
-- key, and the current event of each lineage is that of the last record of its stream, if there is one.
pub append-IsIndexed :
    (r : RepositoryState) (new : WorkClaimRecord) (version : ℕ) {r' : RepositoryState}
    {event : WorkClaimEvent}
    → append r new version ≡ ok (r', event)
    → IsIndexed r
    → IsIndexed r'
append-IsIndexed r new version a h = elim (append-cases r new version a) [
  | inl e ↦ rw e.unchanged h
  | inr s ↦ rw s.published (publish-IsIndexed r new (publish-Grows r new s.new_key s.new_id) h)
]
