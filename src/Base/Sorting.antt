-- ===== src/Base/Sorting.antt =====
-- Python's `sorted`, by a test of `<=` on the keys: the last item is placed first, and an item goes
-- before those that are not smaller, so items with one key keep their order.
use mathlib.Core.Path.{◌≡◌, refl, ap₂, ◌∙◌, subst, transport}
use mathlib.Core.Bool.{Bool, true, false}
use mathlib.Core.List.{List, [], ◌∷◌}
use mathlib.Core.List.{Permᴰ}
use mathlib.Core.List.Permᴰ
use mathlib.Core.Logic.{inl, inr}
use native.Mathlib.Omega.{arith}
use edgeiq.Base.Tests.{if◌then◌else◌, Bool-cases}
use edgeiq.Base.Lists.{All}

module _ {ℓ} {A : Type ℓ} where
  unfoldable pub insert_by : (A → A → Bool) → A → List A → List A
  insert_by le k [] = k ∷ []
  insert_by le k (j ∷ js) = let rest = insert_by le k js in if le k j then k ∷ j ∷ js else j ∷ rest

  unfoldable pub sorted_by : (A → A → Bool) → List A → List A
  unfolding insert_by
  sorted_by le [] = []
  sorted_by le (k ∷ ks) = insert_by le k (sorted_by le ks)

  -- Each two items, the earlier first, are related.
  abbrev pub Pairs {κ} : (A → A → Type κ) → List A → Type κ
  Pairs R [] = Unit
  Pairs R (x ∷ xs) = All (R x) xs × Pairs R xs

  abbrev pub Le : (A → A → Bool) → A → A → Type 0
  Le le a b = le a b ≡ true

  -- Not both before the other: the keys differ.
  abbrev pub Apart : (A → A → Bool) → A → A → Type 0
  Apart le a b = ¬ ((le a b ≡ true) × (le b a ≡ true))

pub record IsOrder {ℓ} {A : Type ℓ} (le : A → A → Bool) : Type ℓ where
  pub total : (a b : A) → le a b ≡ false → le b a ≡ true
  pub trans : (a b c : A) → le a b ≡ true → le b c ≡ true → le a c ≡ true

module _ {ℓ} {A : Type ℓ} where
  pub All-Permᴰ {κ} : (P : A → Type κ) {xs ys : List A} → Permᴰ xs ys → All P xs → All P ys
  All-Permᴰ P Permᴰ.nil h = h
  All-Permᴰ P (Permᴰ.cons e d) h = (subst P e h.0, All-Permᴰ P d h.1)
  All-Permᴰ P (Permᴰ.swap e f) h = (subst P f h.1.0, (subst P e h.0, h.1.1))
  All-Permᴰ P (Permᴰ.trans d c) h = All-Permᴰ P c (All-Permᴰ P d h)

  pub All-map {κ μ} :
      (P : A → Type κ) (Q : A → Type μ) (xs : List A) → ((x : A) → P x → Q x) → All P xs → All Q xs
  All-map P Q [] f h = tt
  All-map P Q (x ∷ xs) f h = (f x h.0, All-map P Q xs f h.1)

  pub Pairs-map {κ μ} :
      (R : A → A → Type κ) (S : A → A → Type μ) (xs : List A)
      → ((a b : A) → R a b → S a b)
      → Pairs R xs
      → Pairs S xs
  Pairs-map R S [] f h = tt
  Pairs-map R S (x ∷ xs) f h = (All-map (R x) (S x) xs (f x) h.0, Pairs-map R S xs f h.1)

  -- A symmetric relation of each two items does not see their order.
  pub Pairs-Permᴰ {κ} :
      (R : A → A → Type κ) {xs ys : List A}
      → ((a b : A) → R a b → R b a)
      → Permᴰ xs ys
      → Pairs R xs
      → Pairs R ys
  Pairs-Permᴰ R turn Permᴰ.nil h = h
  Pairs-Permᴰ R turn (Permᴰ.cons {l₂} e d) h =
      (subst (λ a. All (R a) l₂) e (All-Permᴰ (R _) d h.0), Pairs-Permᴰ R turn d h.1)
  Pairs-Permᴰ R turn (Permᴰ.swap {l} e f) h = (
    (transport (λ i. R (f i) (e i)) (turn _ _ h.0.0), subst (λ a. All (R a) l) f h.1.0),
    (subst (λ a. All (R a) l) e h.0.1, h.1.1),
  )
  Pairs-Permᴰ R turn (Permᴰ.trans d c) h = Pairs-Permᴰ R turn c (Pairs-Permᴰ R turn d h)

module _ {ℓ} {A : Type ℓ} (le : A → A → Bool) where
  insert_by-Permᴰ : (k : A) (js : List A) → Permᴰ (insert_by le k js) (k ∷ js)
  unfolding insert_by
  insert_by-Permᴰ k [] = Permᴰ.cons refl Permᴰ.nil
  insert_by-Permᴰ k (j ∷ js) = elim (Bool-cases (le k j)) [
    | inl first ↦ rw first (Permᴰ.refl (k ∷ j ∷ js))
    | inr later ↦
        rw later (Permᴰ.trans (Permᴰ.cons refl (insert_by-Permᴰ k js)) (Permᴰ.swap refl refl))
  ]

  -- Sorting rearranges.
  pub sorted_by-Permᴰ : (ks : List A) → Permᴰ (sorted_by le ks) ks
  unfolding sorted_by
  sorted_by-Permᴰ [] = Permᴰ.nil
  sorted_by-Permᴰ (k ∷ ks) =
      Permᴰ.trans (insert_by-Permᴰ k (sorted_by le ks)) (Permᴰ.cons refl (sorted_by-Permᴰ ks))

  module _ (order : IsOrder le) where
    All-Le : (a b : A) (xs : List A) → le a b ≡ true → All (Le le b) xs → All (Le le a) xs
    All-Le a b xs h = All-map (Le le b) (Le le a) xs (λ x k. order.trans a b x h k)

    insert_by-Pairs : (k : A) (js : List A) → Pairs (Le le) js → Pairs (Le le) (insert_by le k js)
    unfolding insert_by
    insert_by-Pairs k [] h = (tt, tt)
    insert_by-Pairs k (j ∷ js) h = elim (Bool-cases (le k j)) [
      | inl first ↦ rw first ((first, All-Le k j js first h.0), (h.0, h.1))
      | inr later ↦ rw later (
        All-Permᴰ (Le le j) (Permᴰ.symm (insert_by-Permᴰ k js)) (order.total k j later, h.0),
        insert_by-Pairs k js h.1,
      )
    ]

    -- Sorting puts each item before those that are not smaller.
    pub sorted_by-Pairs : (ks : List A) → Pairs (Le le) (sorted_by le ks)
    unfolding sorted_by
    sorted_by-Pairs [] = tt
    sorted_by-Pairs (k ∷ ks) = insert_by-Pairs k (sorted_by le ks) (sorted_by-Pairs ks)

    insert_by_comm :
        (a b : A) (js : List A)
        → Apart le a b
        → insert_by le a (insert_by le b js) ≡ insert_by le b (insert_by le a js)
    unfolding insert_by
    insert_by_comm a b [] apart = ground (arith, order.total a b)
    insert_by_comm a b (j ∷ js) apart = ground (
      arith,
      insert_by_comm a b js,
      order.total a b,
      order.total b a,
      order.trans a b j,
      order.trans b a j,
    )

    -- Items with keys of their own have one sorted order: sorting forgets the order that they had.
    pub sorted_by-eq :
        {xs ys : List A} → Permᴰ xs ys → Pairs (Apart le) xs → sorted_by le xs ≡ sorted_by le ys
    unfolding sorted_by
    sorted_by-eq Permᴰ.nil h = refl
    sorted_by-eq (Permᴰ.cons e d) h = ap₂ (insert_by le) e (sorted_by-eq d h.1)
    sorted_by-eq (Permᴰ.swap {a} {b} {l} e f) h =
        insert_by_comm a b (sorted_by le l) h.0.0
        ∙ ap₂ (λ x y. insert_by le x (insert_by le y (sorted_by le l))) f e
    sorted_by-eq (Permᴰ.trans d c) h =
        sorted_by-eq d h ∙ sorted_by-eq c (Pairs-Permᴰ (Apart le) (λ x y k p. k (p.1, p.0)) d h)

-- A sorted list is one whose neighbours are in order, and sorting leaves it as it is.
module _ {ℓ} {A : Type ℓ} (le : A → A → Bool) where
  abbrev pub Chain : List A → Type 0
  Chain [] = Unit
  Chain (x ∷ []) = Unit
  Chain (x ∷ y ∷ ys) = (le x y ≡ true) × Chain (y ∷ ys)

  module _ (total : (a b : A) → le a b ≡ false → le b a ≡ true) where
    insert_by-Chain : (k : A) (js : List A) → Chain js → Chain (insert_by le k js)
    unfolding insert_by
    insert_by-Chain k [] h = tt
    insert_by-Chain k (j ∷ []) h = elim (Bool-cases (le k j)) [
      | inl first ↦ rw first (first, tt)
      | inr later ↦ rw later (total k j later, tt)
    ]
    insert_by-Chain k (j ∷ i ∷ js) h = elim (Bool-cases (le k j)) [
      | inl first ↦ rw first (first, h)
      | inr later ↦
          let rest = insert_by-Chain k (i ∷ js) h.1 in
          elim (Bool-cases (le k i)) [
            | inl second ↦ rw (later, second) (total k j later, (second, h.1))
            | inr last ↦ rw (later, last) (h.0, (rw last at rest))
          ]
    ]

    pub sorted_by-Chain : (ks : List A) → Chain (sorted_by le ks)
    unfolding sorted_by
    sorted_by-Chain [] = tt
    sorted_by-Chain (k ∷ ks) = insert_by-Chain k (sorted_by le ks) (sorted_by-Chain ks)

  pub sorted_by-fixed : (ks : List A) → Chain ks → sorted_by le ks ≡ ks
  unfolding sorted_by
  sorted_by-fixed [] h = refl
  sorted_by-fixed (x ∷ []) h = refl
  sorted_by-fixed (x ∷ y ∷ ys) h = rw (sorted_by-fixed (y ∷ ys) h.1, h.0) refl
