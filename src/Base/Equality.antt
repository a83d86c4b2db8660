-- ===== src/Base/Equality.antt =====
-- Python's `==` on the values of the program: decidable equality as an instance.
use Prim.Native.Nat.{ℕ}
use Prim.Native.String.{String}
use mathlib.Core.Path.{◌≡◌, refl, sym, ◌∙◌}
use mathlib.Core.Bool.{Bool, true, false, false≢true}
use native.Mathlib.Decide.{ℕ_discrete}
use native.Mathlib.Omega.{arith}
use text.Mathlib.Text.{◌==◌ as str_eq}
use text.Mathlib.TextEquality.{eq_iff}

pub record Eq {ℓ} (A : Type ℓ) : Type ℓ where
  pub dec : Discrete A

decide_text : (a b : String) (t : Bool) → str_eq a b ≡ t → Dec (a ≡ b)
decide_text a b true e = yes ((eq_iff a b).0 e)
decide_text a b false e = no (λ p. false≢true (◌∙◌ (sym e) ((eq_iff a b).1 p)))

unfoldable pub String_discrete : Discrete String
unfolding decide_text
String_discrete a b = decide_text a b (str_eq a b) refl

module _ {ℓ} {A : Type ℓ} ⦃e : Eq A⦄ where
  infix 50 ◌==◌ ◌/=◌
  abbrev pub ◌==◌ : A → A → Bool
  a == b = elim (e.dec a b) [ yes p ↦ true | no p ↦ false ]

  abbrev pub ◌/=◌ : A → A → Bool
  a /= b = elim (e.dec a b) [ yes p ↦ false | no p ↦ true ]

  pub ==→≡ : (a b : A) → (a == b) ≡ true → a ≡ b
  ==→≡ a b h = ground arith

  pub ==-refl : (a : A) → (a == a) ≡ true
  ==-refl a = ground arith

  pub ≢→== : (a b : A) → ¬ (a ≡ b) → (a == b) ≡ false
  ≢→== a b h = ground arith

instance abbrev pub text_eq : Eq String
text_eq = record { dec = String_discrete }

instance abbrev pub nat_eq : Eq ℕ
nat_eq = record { dec = ℕ_discrete }
