-- ===== src/Platform/Evidence/Immutable.antt =====
-- Retained evidence is immutable: retaining more never changes what a source returns.
use edgeiq.Base.{
  String, ◌≡◌, none, some, ok, arith, Eq, text_eq, Dict, put, true, inl, inr, guard, >>=-eq-ok,
  ok-injective, guard-eq-ok, Option-cases, ap, put-ne,
}
use edgeiq.Platform.Evidence.{SourceKind, retain, require_evidence, replaceable}

-- Every artifact of the first is in the second.
pub record Extends {K T : Type 0} (items items' : Dict K T) : Type 0 where
  pub kept : (id : K) (value : T) → items id ≡ some value → items' id ≡ some value

module _ {K T : Type 0} where
  pub Extends-refl : (items : Dict K T) → Extends items items
  Extends-refl items = record { kept = λ id value h. h }

  pub Extends-trans : {a b c : Dict K T} → Extends a b → Extends b c → Extends a c
  Extends-trans h k = record { kept = λ id value e. k.kept id value (h.kept id value e) }

-- A new key keeps what the others hold.
pub put-Extends :
    {K T : Type 0} ⦃e : Eq K⦄ (items : Dict K T) (k : K) (v : T)
    → items k ≡ none
    → Extends items (put items k v)
put-Extends ⦃e⦄ items k v fresh = record {
  kept = λ id value h. elim (e.dec k id) [
    | yes q ↦ cc (ap items q)
    | no n ↦ rw (put-ne items k id v n) h
  ];
}

module _ {E : Type 0} {T : Type 0} ⦃e : Eq T⦄ (k : SourceKind E T) (invalid : E) where
  put-kept :
      (items : Dict String T) (value : T) (id : String) (v : T)
      → replaceable value (items (k.identity value)) ≡ true
      → items id ≡ some v
      → put items (k.identity value) value id ≡ some v
  unfolding put
  put-kept items value id v h found = ground arith

  -- A `retain` that returns keeps every artifact that the source held, under its identity and unchanged.
  pub retain-Extends :
      (items : Dict String T) (value : T) {items' : Dict String T}
      → retain k invalid items value ≡ ok items'
      → Extends items items'
  unfolding retain
  retain-Extends items value h =
      let (_, valid, rest) = >>=-eq-ok (k.validator value) _ h in
      let (_, passed, stored) =
        >>=-eq-ok (guard (replaceable value (items (k.identity value))) invalid) _ rest in
      record {
        kept = λ id v found.
            rw (← ok-injective stored)
              (put-kept items value id v (guard-eq-ok _ invalid passed) found);
      }

module _ {E : Type 0} {T : Type 0} (k : SourceKind E T) (unavailable : E) where
  pub require_evidence-Extends :
      (items items' : Dict String T) (id organization workload : String) {value : T}
      → Extends items items'
      → require_evidence k unavailable items id organization workload ≡ ok value
      → require_evidence k unavailable items' id organization workload ≡ ok value
  unfolding require_evidence
  require_evidence-Extends items items' id organization workload x h =
      elim (Option-cases (items id)) [
        | inl missing ↦ cc (rw missing at h)
        | inr (v, held) ↦ rw (x.kept id v held) (rw held at h)
      ]
