-- ===== src/Claim/Repository/Conflicts.antt =====
-- Optimistic concurrency: of two records prepared on one history, one is stored.
use edgeiq.Base.{ℕ, ◌+◌, ◌≡◌, ap, ◌∙◌, none, some, [], ◌∷◌, ok, err, arith, length, length-append}
use edgeiq.Claim.Domain.{
  version_conflict, idempotency_conflict, WorkClaimEvent, WorkClaimRecord, lineage_key, bytes_eq,
}
use edgeiq.Claim.Repository.{RepositoryState, stream, idempotency_key_of, publish, append}
use edgeiq.Claim.Repository.Growth.{Stored, stream-publish_self}

-- A record with a new idempotency identity, a new event identity and the current version is stored.
pub append_if :
    (r : RepositoryState) (new : WorkClaimRecord) (version : ℕ)
    → r.idempotency (idempotency_key_of new) ≡ none
    → r.by_id new.event.event_id ≡ none
    → version ≡ length (stream r (lineage_key new.request))
    → new.request.expected_lineage_version ≡ version
    → new.event.lineage_version ≡ version + 1
    → append r new version ≡ ok (publish r new, new.event)
unfolding append
append_if r new version a b c d e = ground arith

-- An idempotency identity that is used with another input is refused.
pub append_other_input :
    (r : RepositoryState) (new prior : WorkClaimRecord) (version : ℕ)
    → r.idempotency (idempotency_key_of new) ≡ some prior
    → ¬ (prior.canonical_input_content ≡ new.canonical_input_content)
    → append r new version ≡ err idempotency_conflict
unfolding append
append_other_input r new prior version held differ = ground arith

stale :
    (r : RepositoryState) (new : WorkClaimRecord) (version : ℕ)
    → r.idempotency (idempotency_key_of new) ≡ none
    → ¬ (version ≡ length (stream r (lineage_key new.request)))
    → append r new version ≡ err version_conflict
unfolding append
stale r new version held differ = ground arith

module _ (r : RepositoryState) (a b : WorkClaimRecord) (version : ℕ) {r' : RepositoryState}
    {event : WorkClaimEvent} (stored : Stored r a version r' event) where
  grown : length (stream r' (lineage_key a.request)) ≡ version + 1
  grown =
      rw (stored.published, stream-publish_self r a)
        (length-append (stream r (lineage_key a.request)) (a ∷ []) ∙ omega (arith, stored.counted))

  -- After a record of a lineage is stored at a version, a record of that lineage that expects the same
  -- version, under an idempotency identity that the repository does not hold yet, is refused.
  pub second_writer_conflicts :
      lineage_key b.request ≡ lineage_key a.request
      → r'.idempotency (idempotency_key_of b) ≡ none
      → append r' b version ≡ err version_conflict
  second_writer_conflicts same fresh =
      stale r' b version fresh
        (λ e. absurd (omega (arith, grown, e ∙ ap (λ k. length (stream r' k)) same)))
