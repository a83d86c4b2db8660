-- ===== src/Platform/Canonical.antt =====
-- canonical.py (one copy in each runtime package): canonical values, their JSON and namespaced digests.
use Prim.Native.Char.{code}
use edgeiq.Base.{
  ℕ, String, Bool, true, false, ◌&&◌, not, List, [], ◌∷◌, ◌++◌, Result, ok, err, ◌>>=◌, ◌>>◌, guard,
  ltb, ◌==◌, text_eq, if◌then◌else◌,
}
use edgeiq.Platform.Values.{
  Bytes, naive, aware, Value, Items, Fields, Interpreter, null, bool, int, text, enum, time, array,
  object, nil, cons, end, field,
}

-- Python compares strings by code points.
abbrev pub codes : String → List ℕ
codes String.[] = []
codes (String.◌∷◌ c s) = code c ∷ codes s

unfoldable pub codes_le : List ℕ → List ℕ → Bool
codes_le [] ys = true
codes_le (x ∷ xs) [] = false
codes_le (x ∷ xs) (y ∷ ys) =
    let rest = codes_le xs ys in if ltb x y then true else (if ltb y x then false else rest)

unfoldable pub text_le : String → String → Bool
unfolding codes_le
text_le a b = codes_le (codes a) (codes b)

insert_field : String → Value → Fields → Fields
insert_field k v end = field k v end
insert_field k v (field j w fs) =
    let rest = insert_field k v fs in
    if text_le k j then field k v (field j w fs) else field j w rest

sort_fields : Fields → Fields
sort_fields end = end
sort_fields (field k v fs) = insert_field k v (sort_fields fs)

has_key : String → Fields → Bool
has_key k end = false
has_key k (field j v fs) = let rest = has_key k fs in if k == j then true else rest

unique_keys : Fields → Bool
unique_keys end = true
unique_keys (field k v fs) = not (has_key k fs) && unique_keys fs

module _ ⦃p : Interpreter⦄ {E : Type 0} where
  unfoldable mutual
    unfolding unique_keys has_key sort_fields insert_field text_le

    pub canonical_value : E → Value → Result E Value
    canonical_value invalid null = ok null
    canonical_value invalid (bool b) = ok (bool b)
    canonical_value invalid (int n) = ok (int n)
    canonical_value invalid (text s) = ok (text (p.nfc s))
    canonical_value invalid (enum s) = ok (text s)
    canonical_value invalid (time (naive t)) = err invalid
    canonical_value invalid (time (aware t)) = ok (text (p.isoformat_z t))
    canonical_value invalid (array vs) = do ws ← canonical_items invalid vs; ok (array ws)
    canonical_value invalid (object fs) = do
      gs ← canonical_fields invalid fs
      guard (unique_keys gs) invalid
      ok (object (sort_fields gs))

    pub canonical_items : E → Items → Result E Items
    canonical_items invalid nil = ok nil
    canonical_items invalid (cons v vs) = do
      w ← canonical_value invalid v
      ws ← canonical_items invalid vs
      ok (cons w ws)

    pub canonical_fields : E → Fields → Result E Fields
    canonical_fields invalid end = ok end
    canonical_fields invalid (field k v fs) = do
      w ← canonical_value invalid v
      gs ← canonical_fields invalid fs
      ok (field (p.nfc k) w gs)

  unfoldable pub canonical_json : E → Value → Result E String
  unfolding canonical_value
  canonical_json invalid value = do v ← canonical_value invalid value; ok (p.dumps v)

  -- `canonical_json(value).encode("utf-8")`.
  unfoldable pub canonical_content : E → Value → Result E Bytes
  unfolding canonical_json
  canonical_content invalid value = do j ← canonical_json invalid value; ok (p.encode j)

module _ ⦃p : Interpreter⦄ where
  unfoldable pub namespaced_digest : String → Bytes → String
  namespaced_digest namespace content = p.sha256 (p.encode namespace ++ 10 ∷ content)
