-- ===== src/Base/Lists.antt =====
-- Lists measured by native numbers.
use Prim.Native.Nat.{ℕ, zero, suc, ◌+◌}
use mathlib.Core.Path.{◌≡◌, refl, sym, ap, ◌∙◌, subst}
use mathlib.Core.Logic.{◌⊎◌, inl, inr}
use mathlib.Core.Bool.{Bool, true, false, ◌&&◌, ◌||◌}
use mathlib.Core.List.{List, [], ◌∷◌, ◌++◌, append-nil, append_assoc}
use native.Mathlib.Omega.{arith}

module _ {ℓ} {A : Type ℓ} where
  abbrev pub length : List A → ℕ
  length [] = 0
  length (x ∷ xs) = suc (length xs)

  pub length-append : (xs ys : List A) → length (xs ++ ys) ≡ length xs + length ys
  length-append [] ys = omega arith
  length-append (x ∷ xs) ys = omega (arith, length-append xs ys)

  abbrev pub all : (A → Bool) → List A → Bool
  all p [] = true
  all p (x ∷ xs) = p x && all p xs

  abbrev pub any : (A → Bool) → List A → Bool
  any p [] = false
  any p (x ∷ xs) = p x || any p xs

abbrev pub take {ℓ} : {A : Type ℓ} → ℕ → List A → List A
take zero xs = []
take (suc n) [] = []
take (suc n) (x ∷ xs) = x ∷ take n xs

abbrev pub All {ℓ κ} : {A : Type ℓ} → (A → Type κ) → List A → Type κ
All P [] = Unit
All P (x ∷ xs) = P x × All P xs

module _ {ℓ} {A : Type ℓ} where
  -- Membership, with its place.
  pub data In (x : A) : List A → Type ℓ where
    here : {y : A} {ys : List A} → x ≡ y → In x (y ∷ ys)
    there : {y : A} {ys : List A} → In x ys → In x (y ∷ ys)

  pub In-append-left : {x : A} {xs : List A} (ys : List A) → In x xs → In x (xs ++ ys)
  In-append-left ys (here e) = here e
  In-append-left ys (there i) = there (In-append-left ys i)

  pub In-append-last : (xs : List A) (x : A) → In x (xs ++ x ∷ [])
  In-append-last [] x = here refl
  In-append-last (y ∷ xs) x = there (In-append-last xs x)

  pub In-append-cases : {x : A} (xs : List A) (y : A) → In x (xs ++ y ∷ []) → In x xs ⊎ (x ≡ y)
  In-append-cases [] y (here e) = inr e
  In-append-cases [] y (there i) = elim i [ ]
  In-append-cases (z ∷ xs) y (here e) = inl (here e)
  In-append-cases (z ∷ xs) y (there i) = elim (In-append-cases xs y i) [
    | inl j ↦ inl (there j)
    | inr e ↦ inr e
  ]

  -- `xs` is where `ys` begins.
  pub record IsPrefix (xs ys : List A) : Type ℓ where
    pub rest : List A
    pub whole : xs ++ rest ≡ ys

  pub In-prefix : {x : A} {xs ys : List A} → IsPrefix xs ys → In x xs → In x ys
  In-prefix p i = rw (← p.whole) (In-append-left p.rest i)

  pub IsPrefix-refl : (xs : List A) → IsPrefix xs xs
  IsPrefix-refl xs = record { rest = []; whole = append-nil xs }

  pub IsPrefix-append : (xs ys zs : List A) → IsPrefix xs ys → IsPrefix xs (ys ++ zs)
  IsPrefix-append xs ys zs p = record {
    rest = p.rest ++ zs;
    whole = sym (append_assoc xs p.rest zs) ∙ ap (λ l. l ++ zs) p.whole;
  }

  pub IsPrefix-trans : {xs ys zs : List A} → IsPrefix xs ys → IsPrefix ys zs → IsPrefix xs zs
  IsPrefix-trans {xs} p q = record {
    rest = p.rest ++ q.rest;
    whole = sym (append_assoc xs p.rest q.rest) ∙ ap (λ l. l ++ q.rest) p.whole ∙ q.whole;
  }

  nil_of_length : (xs zs : List A) → length (xs ++ zs) ≡ length xs → zs ≡ []
  nil_of_length [] [] h = refl
  nil_of_length [] (z ∷ zs) h = absurd (omega arith)
  nil_of_length (x ∷ xs) zs h = nil_of_length xs zs (omega arith)

  -- A prefix of the same length is the whole list.
  pub IsPrefix-length : {xs ys : List A} → IsPrefix xs ys → length xs ≡ length ys → xs ≡ ys
  IsPrefix-length {xs} p h =
      let none_left = nil_of_length xs p.rest (ap length p.whole ∙ sym h) in
      sym (append-nil xs) ∙ ap (λ l. xs ++ l) (sym none_left) ∙ p.whole

  pub All-append {κ} :
      (P : A → Type κ) (xs : List A) (y : A) → All P xs → P y → All P (xs ++ y ∷ [])
  All-append P [] y h k = (k, tt)
  All-append P (x ∷ xs) y h k = (h.0, All-append P xs y h.1 k)

  pub All-In {κ} : (P : A → Type κ) {x : A} {xs : List A} → In x xs → All P xs → P x
  All-In P (here e) h = subst P (sym e) h.0
  All-In P (there i) h = All-In P i h.1
