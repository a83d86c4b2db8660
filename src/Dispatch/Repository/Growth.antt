-- ===== src/Dispatch/Repository/Growth.antt =====
-- What one `append` does to the streams and to the index of identities.
use edgeiq.Base.{
  ℕ, ◌+◌, String, ◌≡◌, refl, ◌⊎◌, inl, inr, Option, none, some, [], ◌∷◌, ◌++◌, ok, arith, put_self,
  put-ne, put-cases, In, In-append-last, In-append-left, In-append-cases, subst, sym, length,
  text_eq, String_discrete,
}
use edgeiq.Dispatch.Domain.{
  DispatchDecision, DispatchDecisionRecord, StreamKey, StreamKey_discrete, stream_key,
  stream_key_eq,
}
use edgeiq.Dispatch.Repository.{
  RepositoryState, stream, idempotency_key_of, idempotency_key_eq, bytes_eq, publish, append,
  append_checked,
}

-- A call that returned changed nothing, or stored its record at the expected version.
pub data Appended (r : RepositoryState) (new : DispatchDecisionRecord) (version : ℕ)
    (r' : RepositoryState) (d : DispatchDecision) : Type 0 where
  unchanged :
      (prior : DispatchDecisionRecord)
      → r.idempotency (idempotency_key_of new) ≡ some prior
      → r' ≡ r
      → d ≡ prior.decision
      → Appended r new version r' d
  stored :
      r.idempotency (idempotency_key_of new) ≡ none
      → version ≡ length (stream r (stream_key new.request))
      → new.decision.stream_version ≡ version + 1
      → r.by_id new.decision.dispatch_decision_id ≡ none
      → r' ≡ publish r new
      → d ≡ new.decision
      → Appended r new version r' d

module _ (r : RepositoryState) (new : DispatchDecisionRecord) (version : ℕ) {r' : RepositoryState}
    {d : DispatchDecision} where
  append_found :
      (o : Option DispatchDecisionRecord)
      → r.idempotency (idempotency_key_of new) ≡ o
      → append_checked r new version o ≡ ok (r', d)
      → Appended r new version r' d
  unfolding append_checked
  append_found (some prior) held h = Appended.unchanged prior held (ground arith) (ground arith)
  append_found none held h =
      Appended.stored held (ground arith) (ground arith) (ground arith) (ground arith)
        (ground arith)

  pub append-Appended : append r new version ≡ ok (r', d) → Appended r new version r' d
  unfolding append
  append-Appended h = append_found _ refl h

module _ (r : RepositoryState) (new : DispatchDecisionRecord) where
  pub stream-publish_self :
      stream (publish r new) (stream_key new.request)
      ≡ stream r (stream_key new.request) ++ new ∷ []
  unfolding publish
  stream-publish_self = rw (put_self r.streams (stream_key new.request) _)

  pub stream-publish_ne :
      (k : StreamKey) → ¬ (stream_key new.request ≡ k) → stream (publish r new) k ≡ stream r k
  unfolding publish
  stream-publish_ne k n = rw (put-ne r.streams (stream_key new.request) k _ n)

  -- What a published stream holds: what it held, and the new record in its own stream.
  pub published_cases :
      (k : StreamKey) (x : DispatchDecisionRecord)
      → In x (stream (publish r new) k)
      → In x (stream r k) ⊎ ((x ≡ new) × (stream_key new.request ≡ k))
  published_cases k x i = elim (StreamKey_discrete (stream_key new.request) k) [
    | yes q ↦
        elim (In-append-cases (stream r (stream_key new.request)) new
          (rw (← q, stream-publish_self) at i)) [
            | inl old ↦ inl (rw (← q) old)
            | inr last ↦ inr (last, q)
          ]
    | no n ↦ inl (rw (stream-publish_ne k n) at i)
  ]

  pub published_new : In new (stream (publish r new) (stream_key new.request))
  published_new = rw stream-publish_self (In-append-last _ new)

  pub published_old :
      (k : StreamKey) (x : DispatchDecisionRecord)
      → In x (stream r k)
      → In x (stream (publish r new) k)
  published_old k x i = elim (StreamKey_discrete (stream_key new.request) k) [
    | yes q ↦
        subst (λ j. In x (stream (publish r new) j)) q
          (rw stream-publish_self
            (In-append-left (new ∷ []) (subst (λ j. In x (stream r j)) (sym q) i)))
    | no n ↦ rw (stream-publish_ne k n) i
  ]

  pub by_id-publish-cases :
      (id : String) (x : DispatchDecisionRecord)
      → (publish r new).by_id id ≡ some x
      → ((new ≡ x) × (new.decision.dispatch_decision_id ≡ id)) ⊎ (r.by_id id ≡ some x)
  unfolding publish
  by_id-publish-cases id x h = elim (String_discrete new.decision.dispatch_decision_id id) [
    | yes q ↦ elim (put-cases r.by_id new.decision.dispatch_decision_id id new h) [
      | inl same ↦ inl (same, q)
      | inr old ↦ inr old
    ]
    | no n ↦ inr (rw (put-ne r.by_id new.decision.dispatch_decision_id id new n) at h)
  ]
