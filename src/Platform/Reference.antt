-- ===== src/Platform/Reference.antt =====
-- `EvidenceReference`, which every runtime package declares in its domain.py.
use edgeiq.Base.{
  String, Bool, List, [], ◌∷◌, Result, ok, ◌>>=◌, Eq, ◌==◌, text_eq, String_discrete, if◌then◌else◌,
}
use edgeiq.Platform.Values.{Interpreter}
use edgeiq.Platform.Canonical.{text_le}
use edgeiq.Platform.Checks.{required_text, sha256_hex}

pub record EvidenceReference : Type 0 where
  pub artifact_id : String
  pub canonical_digest : String

unfoldable pub EvidenceReference_discrete : Discrete EvidenceReference
EvidenceReference_discrete = hlevel String_discrete

instance abbrev pub reference_eq : Eq EvidenceReference
reference_eq = record { dec = EvidenceReference_discrete }

-- The constructor with its `__post_init__`.
module _ ⦃p : Interpreter⦄ {E : Type 0} where
  unfoldable pub evidence_reference : E → String → String → Result E EvidenceReference
  evidence_reference invalid artifact_id canonical_digest = do
    artifact_id' ← required_text invalid artifact_id
    canonical_digest' ← sha256_hex invalid canonical_digest
    ok (record { artifact_id = artifact_id'; canonical_digest = canonical_digest' })

-- `order=True`: the fields are compared in turn.
unfoldable pub reference_le : EvidenceReference → EvidenceReference → Bool
reference_le a b =
    if a.artifact_id == b.artifact_id
    then text_le a.canonical_digest b.canonical_digest
    else text_le a.artifact_id b.artifact_id

unfoldable pub insert_reference :
    EvidenceReference → List EvidenceReference → List EvidenceReference
insert_reference k [] = k ∷ []
insert_reference k (j ∷ ks) =
    let rest = insert_reference k ks in if reference_le k j then k ∷ j ∷ ks else j ∷ rest

unfoldable pub sorted_references : List EvidenceReference → List EvidenceReference
unfolding insert_reference reference_le
sorted_references [] = []
sorted_references (k ∷ ks) = insert_reference k (sorted_references ks)
