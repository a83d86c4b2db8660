-- ===== src/Base/Dicts.antt =====
-- A Python `dict`, by what `get` returns; an immutable `Mapping` that is copied and extended.
use mathlib.Core.Path.{◌≡◌}
use mathlib.Core.Logic.{◌⊎◌, inl, inr}
use native.Mathlib.Omega.{arith}
use mathlib.Core.Option.{Option, none, some}
use edgeiq.Base.Tests.{if◌then◌else◌, Bool-cases}
use edgeiq.Base.Equality.{Eq, ◌==◌, ==-refl, ≢→==}

abbrev pub Dict {ℓ κ} : Type ℓ → Type κ → Type (ℓ ⊔ κ)
Dict K V = K → Option V

unfoldable pub empty_dict {ℓ κ} : {K : Type ℓ} {V : Type κ} → Dict K V
empty_dict k = none

abbrev pub get_or_else {ℓ} : {V : Type ℓ} → V → Option V → V
get_or_else d none = d
get_or_else d (some v) = v

module _ {ℓ κ} {K : Type ℓ} {V : Type κ} ⦃e : Eq K⦄ where
  -- `d[k] = v` on a copy of `d`.
  unfoldable pub put : Dict K V → K → V → Dict K V
  put d k v j = if k == j then some v else d j

  pub put_self : (d : Dict K V) (k : K) (v : V) → put d k v k ≡ some v
  unfolding put
  put_self d k v = rw (==-refl k)

  pub put-ne : (d : Dict K V) (k j : K) (v : V) → ¬ (k ≡ j) → put d k v j ≡ d j
  unfolding put
  put-ne d k j v h = rw (≢→== k j h)

  -- What stands under a key of the changed copy is the new value, or stood there before.
  pub put-cases :
      (d : Dict K V) (k j : K) (v : V) {w : V} → put d k v j ≡ some w → (v ≡ w) ⊎ (d j ≡ some w)
  unfolding put
  put-cases d k j v h = elim (Bool-cases (k == j)) [
    | inl same ↦ inl (ground (arith, same))
    | inr other ↦ inr (ground (arith, other))
  ]
