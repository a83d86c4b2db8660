-- ===== src/Platform/TextOrder.antt =====
-- Python's order of strings is a total order.
use Prim.Native.Nat.{compare, Ordering}
use Prim.Native.Char.{code}
use mathlib.Core.Path.{ap₂}
use text.Mathlib.TextEquality.{codes_equal}
use edgeiq.Base.{ℕ, String, ◌≡◌, refl, true, false, List, [], ◌∷◌, arith}
use edgeiq.Base.Sorting.{IsOrder}
use edgeiq.Platform.Canonical.{codes, codes_le, text_le}

codes_le_total : (xs ys : List ℕ) → codes_le xs ys ≡ false → codes_le ys xs ≡ true
unfolding codes_le
codes_le_total [] ys h = cc
codes_le_total (x ∷ xs) [] h = refl
codes_le_total (x ∷ xs) (y ∷ ys) h = ground (arith, codes_le_total xs ys)

codes_le_trans :
    (xs ys zs : List ℕ) → codes_le xs ys ≡ true → codes_le ys zs ≡ true → codes_le xs zs ≡ true
unfolding codes_le
codes_le_trans [] ys zs h k = refl
codes_le_trans (x ∷ xs) [] zs h k = cc
codes_le_trans (x ∷ xs) (y ∷ ys) [] h k = cc
codes_le_trans (x ∷ xs) (y ∷ ys) (z ∷ zs) h k = ground (arith, codes_le_trans xs ys zs)

codes_le_antisymm : (xs ys : List ℕ) → codes_le xs ys ≡ true → codes_le ys xs ≡ true → xs ≡ ys
unfolding codes_le
codes_le_antisymm [] [] h k = refl
codes_le_antisymm [] (y ∷ ys) h k = cc
codes_le_antisymm (x ∷ xs) [] h k = cc
codes_le_antisymm (x ∷ xs) (y ∷ ys) h k = ground (arith, codes_le_antisymm xs ys)

compare_eq : (m n : ℕ) → m ≡ n → compare m n ≡ Ordering.eq
compare_eq m n h = ground arith

codes-injective : (a b : String) → codes a ≡ codes b → a ≡ b
codes-injective String.[] String.[] h = refl
codes-injective String.[] (String.◌∷◌ d t) h = cc
codes-injective (String.◌∷◌ c s) String.[] h = cc
codes-injective (String.◌∷◌ c s) (String.◌∷◌ d t) h =
    ap₂ String.◌∷◌ (codes_equal c d (compare_eq (code c) (code d) (cc))) (codes-injective s t (cc))

pub text_le-IsOrder : IsOrder text_le
unfolding text_le
text_le-IsOrder = record {
  total = λ a b h. codes_le_total (codes a) (codes b) h;
  trans = λ a b c h k. codes_le_trans (codes a) (codes b) (codes c) h k;
}

pub text_le_antisymm : (a b : String) → text_le a b ≡ true → text_le b a ≡ true → a ≡ b
unfolding text_le
text_le_antisymm a b h k = codes-injective a b (codes_le_antisymm (codes a) (codes b) h k)
