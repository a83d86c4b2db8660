-- ===== src/Claim/Repository/Growth.antt =====
-- What one `append` does: it stores its record at the end of the stream, or it finds a prior record.
use edgeiq.Base.{
  ℕ, ◌+◌, ◌≡◌, refl, ◌⊎◌, inl, inr, Option, none, some, [], ◌∷◌, ◌++◌, ok, arith, put_self, put-ne,
  length, IsPrefix, IsPrefix-refl, IsPrefix-append, IsPrefix-trans, subst, text_eq,
}
use edgeiq.Platform.Evidence.Immutable.{Extends, Extends-refl, Extends-trans, put-Extends}
use edgeiq.Claim.Domain.{
  WorkClaimEvent, WorkClaimRecord, LineageKey, LineageKey_discrete, lineage_key, lineage_key_eq,
  bytes_eq,
}
use edgeiq.Claim.Repository.{
  RepositoryState, idempotency_key_eq, stream, idempotency_key_of, publish, append, append_checked,
}

-- `append` found a record under the same idempotency identity, and changed nothing.
pub record Existing (r : RepositoryState) (new : WorkClaimRecord) (r' : RepositoryState)
    (event : WorkClaimEvent) : Type 0 where
  pub prior : WorkClaimRecord
  pub held : r.idempotency (idempotency_key_of new) ≡ some prior
  pub same_content : prior.canonical_input_content ≡ new.canonical_input_content
  pub unchanged : r' ≡ r
  pub returned : event ≡ prior.event

-- `append` stored the record at its expected version.
pub record Stored (r : RepositoryState) (new : WorkClaimRecord) (version : ℕ) (r' : RepositoryState)
    (event : WorkClaimEvent) : Type 0 where
  pub new_key : r.idempotency (idempotency_key_of new) ≡ none
  pub new_id : r.by_id new.event.event_id ≡ none
  pub counted : version ≡ length (stream r (lineage_key new.request))
  pub requested : new.request.expected_lineage_version ≡ version
  pub versioned : new.event.lineage_version ≡ version + 1
  pub published : r' ≡ publish r new
  pub returned : event ≡ new.event

module _ (r : RepositoryState) (new : WorkClaimRecord) (version : ℕ) {r' : RepositoryState}
    {event : WorkClaimEvent} where
  append_found :
      (o : Option WorkClaimRecord)
      → r.idempotency (idempotency_key_of new) ≡ o
      → append_checked r new version o ≡ ok (r', event)
      → Existing r new r' event ⊎ Stored r new version r' event
  unfolding append_checked
  append_found (some prior) held h = inl (record {
    prior = prior;
    held = held;
    same_content = ground arith;
    unchanged = ground arith;
    returned = ground arith;
  })
  append_found none held h = inr (record {
    new_key = held;
    new_id = ground arith;
    counted = ground arith;
    requested = ground arith;
    versioned = ground arith;
    published = ground arith;
    returned = ground arith;
  })

  pub append-cases :
      append r new version ≡ ok (r', event)
      → Existing r new r' event ⊎ Stored r new version r' event
  unfolding append
  append-cases h = append_found (r.idempotency (idempotency_key_of new)) refl h

-- A later repository: histories are extended, and records are kept under their identities.
pub record Grows (a b : RepositoryState) : Type 0 where
  pub streams : (k : LineageKey) → IsPrefix (stream a k) (stream b k)
  pub by_id : Extends a.by_id b.by_id
  pub idempotency : Extends a.idempotency b.idempotency

pub Grows-refl : (a : RepositoryState) → Grows a a
Grows-refl a = record {
  streams = λ k. IsPrefix-refl (stream a k);
  by_id = Extends-refl a.by_id;
  idempotency = Extends-refl a.idempotency;
}

pub Grows-trans : {a b c : RepositoryState} → Grows a b → Grows b c → Grows a c
Grows-trans g h = record {
  streams = λ k. IsPrefix-trans (g.streams k) (h.streams k);
  by_id = Extends-trans g.by_id h.by_id;
  idempotency = Extends-trans g.idempotency h.idempotency;
}

module _ (r : RepositoryState) (new : WorkClaimRecord) where
  pub stream-publish_self :
      stream (publish r new) (lineage_key new.request)
      ≡ stream r (lineage_key new.request) ++ new ∷ []
  unfolding publish
  stream-publish_self = rw (put_self r.streams (lineage_key new.request) _)

  pub stream-publish_ne :
      (k : LineageKey) → ¬ (lineage_key new.request ≡ k) → stream (publish r new) k ≡ stream r k
  unfolding publish
  stream-publish_ne k n = rw (put-ne r.streams (lineage_key new.request) k _ n)

  stream-publish-IsPrefix : (k : LineageKey) → IsPrefix (stream r k) (stream (publish r new) k)
  stream-publish-IsPrefix k = elim (LineageKey_discrete (lineage_key new.request) k) [
    | yes q ↦
        subst (λ j. IsPrefix (stream r j) (stream (publish r new) j)) q
          (rw stream-publish_self (IsPrefix-append _ _ (new ∷ []) (IsPrefix-refl _)))
    | no n ↦ rw (stream-publish_ne k n) (IsPrefix-refl _)
  ]

  pub publish-Grows :
      r.idempotency (idempotency_key_of new) ≡ none
      → r.by_id new.event.event_id ≡ none
      → Grows r (publish r new)
  unfolding publish
  publish-Grows h k = record {
    streams = stream-publish-IsPrefix;
    by_id = put-Extends r.by_id new.event.event_id new k;
    idempotency = put-Extends r.idempotency (idempotency_key_of new) new h;
  }

  -- Whatever `append` does, histories are only extended and no record is replaced.
  pub append-Grows :
      (version : ℕ) {r' : RepositoryState} {event : WorkClaimEvent}
      → append r new version ≡ ok (r', event)
      → Grows r r'
  append-Grows version h = elim (append-cases r new version h) [
    | inl e ↦ rw e.unchanged (Grows-refl r)
    | inr s ↦ rw s.published (publish-Grows s.new_key s.new_id)
  ]
