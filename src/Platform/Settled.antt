-- ===== src/Platform/Settled.antt =====
-- What the checks and the sorting of a constructor do to its own results: nothing.
use edgeiq.Base.{
  String, ◌≡◌, refl, ap, ◌∙◌, true, false, List, [], ◌∷◌, ok, arith, text_eq, nat_eq, all, All,
  map_result, length,
}
use edgeiq.Base.Sorting.{sorted_by, insert_by, Chain, sorted_by-Chain, sorted_by-fixed}
use edgeiq.Platform.Values.{Interpreter}
use edgeiq.Platform.Canonical.{codes, text_le}
use edgeiq.Platform.Checks.{required_text, sha256_hex, insert_text, sorted_texts, is_hex}
use edgeiq.Platform.Reference.{
  EvidenceReference, reference_eq, reference_le, insert_reference, sorted_references,
}
use edgeiq.Platform.TextOrder.{text_le-IsOrder}
use edgeiq.Platform.Laws.{InterpreterLaws, is_ascii, all-hex-ascii}

insert_text-insert_by : (k : String) (js : List String) → insert_text k js ≡ insert_by text_le k js
unfolding insert_text insert_by
insert_text-insert_by k [] = refl
insert_text-insert_by k (j ∷ js) = rw (insert_text-insert_by k js) refl

pub sorted_texts-sorted_by : (ks : List String) → sorted_texts ks ≡ sorted_by text_le ks
unfolding sorted_texts sorted_by
sorted_texts-sorted_by [] = refl
sorted_texts-sorted_by (k ∷ ks) =
    rw (← sorted_texts-sorted_by ks) (insert_text-insert_by k (sorted_texts ks))

-- Texts that are sorted are left as they are.
pub sorted_texts-fixed : (ks : List String) → Chain text_le ks → sorted_texts ks ≡ ks
sorted_texts-fixed ks h = sorted_texts-sorted_by ks ∙ sorted_by-fixed text_le ks h

insert_reference-insert_by :
    (k : EvidenceReference) (js : List EvidenceReference)
    → insert_reference k js ≡ insert_by reference_le k js
unfolding insert_reference insert_by
insert_reference-insert_by k [] = refl
insert_reference-insert_by k (j ∷ js) = rw (insert_reference-insert_by k js) refl

sorted_references-sorted_by :
    (ks : List EvidenceReference) → sorted_references ks ≡ sorted_by reference_le ks
unfolding sorted_references sorted_by
sorted_references-sorted_by [] = refl
sorted_references-sorted_by (k ∷ ks) =
    rw (← sorted_references-sorted_by ks) (insert_reference-insert_by k (sorted_references ks))

reference_le_total : (a b : EvidenceReference) → reference_le a b ≡ false → reference_le b a ≡ true
unfolding reference_le
reference_le_total a b h = ground (
  arith,
  text_le-IsOrder.total a.artifact_id b.artifact_id,
  text_le-IsOrder.total a.canonical_digest b.canonical_digest,
)

-- Sorting references twice is sorting them once.
pub sorted_references_again :
    (ks : List EvidenceReference) → sorted_references (sorted_references ks) ≡ sorted_references ks
sorted_references_again ks =
    sorted_references-sorted_by (sorted_references ks)
    ∙ sorted_by-fixed reference_le (sorted_references ks)
        (rw (sorted_references-sorted_by ks) (sorted_by-Chain reference_le reference_le_total ks))

module _ ⦃p : Interpreter⦄ {E : Type 0} (invalid : E) where
  -- A text that `required_text` leaves as it is.
  abbrev pub IsSettled : String → Type 0
  IsSettled s = required_text invalid s ≡ ok s

  pub map_result-IsSettled :
      (ss : List String) → All IsSettled ss → map_result (required_text invalid) ss ≡ ok ss
  map_result-IsSettled [] h = refl
  map_result-IsSettled (s ∷ ss) h = rw (h.0, map_result-IsSettled ss h.1) refl

  -- An ASCII text is settled, unless it is empty.
  pub ascii-IsSettled :
      InterpreterLaws p → (s : String) → all is_ascii (codes s) ≡ true → ¬ (s ≡ "") → IsSettled s
  unfolding required_text
  ascii-IsSettled laws s h n = ground (arith, laws.nfc_ascii s h)

  digest_parts :
      (s : String) {v : String}
      → sha256_hex invalid s ≡ ok v
      → (length (codes v) ≡ 64) × (all is_hex (codes v) ≡ true)
  unfolding sha256_hex
  digest_parts s h = ground arith

  nonempty_digest : (v : String) → length (codes v) ≡ 64 → ¬ (v ≡ "")
  nonempty_digest v h e =
      let none_left = ap (λ w. length (codes w)) e in absurd (omega (arith, h, none_left))

  digest_taken :
      (v : String)
      → IsSettled v
      → length (codes v) ≡ 64
      → all is_hex (codes v) ≡ true
      → sha256_hex invalid v ≡ ok v
  unfolding sha256_hex
  digest_taken v settled h k = ground (arith, settled)

  -- A digest that `sha256_hex` returned is taken again as it is.
  pub sha256_hex_again :
      InterpreterLaws p
      → (s : String) {v : String} → sha256_hex invalid s ≡ ok v
      → sha256_hex invalid v ≡ ok v
  sha256_hex_again laws s {v} h =
      let (long, hex) = digest_parts s h in
      digest_taken v (ascii-IsSettled laws v (all-hex-ascii (codes v) hex) (nonempty_digest v long))
        long hex
