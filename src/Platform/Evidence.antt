-- ===== src/Platform/Evidence.antt =====
-- `InMemoryScopedEvidenceSource` and `require_evidence`, which each evidence.py declares: retained,
-- immutable artifacts by identity, read back within an organization and a workload context.
pub mod Immutable
use edgeiq.Base.{
  String, Bool, true, ◌&&◌, Option, none, some, Result, ok, err, ◌>>=◌, ◌>>◌, guard, Eq, ◌==◌,
  text_eq, Dict, put, if◌then◌else◌,
}

-- The four functions that a source is built with.
pub record SourceKind (E : Type 0) (T : Type 0) : Type 0 where
  pub identity : T → String
  pub validator : T → Result E (Unit {0})
  pub organization : T → String
  pub workload : T → String

-- `prior is not None and prior != value` does not hold.
abbrev replaceable : {T : Type 0} ⦃e : Eq T⦄ → T → Option T → Bool
replaceable value none = true
replaceable value (some prior) = prior == value

module _ {E : Type 0} {T : Type 0} ⦃e : Eq T⦄ where
  -- `retain` returns the new contents.
  unfoldable pub retain : SourceKind E T → E → Dict String T → T → Result E (Dict String T)
  retain k invalid items value = do
    k.validator value
    guard (replaceable value (items (k.identity value))) invalid
    ok (put items (k.identity value) value)

module _ {E : Type 0} {T : Type 0} where
  abbrev scoped : SourceKind E T → Option T → String → String → Result E (Option T)
  scoped k none organization_id workload_context_id = ok none
  scoped k (some value) organization_id workload_context_id =
      if k.organization value == organization_id && k.workload value == workload_context_id
      then (do k.validator value; ok (some value))
      else ok none

  unfoldable pub get_scoped :
      SourceKind E T → Dict String T → String → String → String → Result E (Option T)
  get_scoped k items artifact_id organization_id workload_context_id =
      scoped k (items artifact_id) organization_id workload_context_id

  abbrev found : E → Option T → Result E T
  found unavailable none = err unavailable
  found unavailable (some value) = ok value

  unfoldable pub require_evidence :
      SourceKind E T → E → Dict String T → String → String → String → Result E T
  unfolding get_scoped
  require_evidence k unavailable items artifact_id organization_id workload_context_id = do
    value ← get_scoped k items artifact_id organization_id workload_context_id
    found unavailable value
