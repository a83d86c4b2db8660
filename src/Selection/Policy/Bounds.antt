-- ===== src/Selection/Policy/Bounds.antt =====
-- The rounding of a score, and how large a score can be.
use Prim.Native.Nat.{◌/◌, ◌%◌, ◌^◌}
use native.Mathlib.Decide.{dec_le}
use native.Mathlib.Nat.{mod-lt, div-add-mod, pow-le-pow_right, mul-le-mul_left, mul-le-mul_right}
use edgeiq.Base.{
  ℕ, ◌+◌, ◌*◌, ◌≤◌, ◌<◌, ◌≡◌, refl, arith, String, Bool, true, false, Option, none, some, List, [],
  ◌∷◌, ok, >>=-eq-ok, guard, guard-eq-ok, ok-injective, map_result, sym, ap, All, nat_eq,
  Bool-cases, inl, inr,
}
use edgeiq.Selection.Domain.{Formats, Decimal, finite, special, invalid, Millionths, ScoreComponent}
use edgeiq.Selection.Policy.{
  ComponentDefinition, ScoringPolicy, scoring_policy_v1, policy_for, round_half_even, quantized,
  normalized, score_of, score_component, score_components, in_unit, total_score, gains, losses,
}

pow-pos : (k : ℕ) → 0 < 10 ^ k
pow-pos k = pow-le-pow_right {n = 10} (omega arith) {i = 0} {j = k} (omega arith)

-- The division with remainder, the product named.
divided : (n d : ℕ) → 0 < d → (p : ℕ) × (p ≡ d * (n / d)) × (p + n % d ≡ n) × (n % d < d)
divided n d pos = (d * (n / d), refl, div-add-mod n d, mod-lt n pos)

-- The rounded quotient is nearest: its product with the divisor is within half a divisor of the number.
pub round_half_even-nearest :
    (n d : ℕ)
    → 0 < d
    → (2 * (d * round_half_even n d) ≤ 2 * n + d) × (2 * n ≤ 2 * (d * round_half_even n d) + d)
unfolding round_half_even
round_half_even-nearest n d pos =
    let (p, whole, sum, small) = divided n d pos in (grind arith, grind arith)

within : (d r : ℕ) → 0 < d → 2 * (d * r) ≤ 2 * (d * 1000000) + d → r ≤ 1000000
within d r pos h = elim (dec_le r 1000000) [
  | yes p ↦ p
  | no p ↦ let more = mul-le-mul_left {m = 1000001} {n = r} d (omega arith) in omega arith
]

round_half_even-le : (c d : ℕ) → 0 < d → c ≤ d → round_half_even (c * 1000000) d ≤ 1000000
round_half_even-le c d pos h =
    let (p, q) = round_half_even-nearest (c * 1000000) d pos in
    within d (round_half_even (c * 1000000) d) pos (omega arith)

unit-le : (negative : Bool) (c d : ℕ) → in_unit negative c d ≡ true → c ≤ d
unit-le true c d h = ground arith
unit-le false c d h = ground arith

quantized-le : (raw : Option Decimal) {m : Millionths} → quantized raw ≡ ok m → m.amount ≤ 1000000
unfolding quantized
quantized-le none h = cc
quantized-le (some special) h = cc
quantized-le (some (finite negative c k)) h =
    let (u, tested, made) = >>=-eq-ok (guard (in_unit negative c (10 ^ k)) invalid) _ h in
    let inside = unit-le negative c (10 ^ k) (guard-eq-ok _ invalid tested) in
    rw (sym (ok-injective made)) (round_half_even-le c (10 ^ k) (pow-pos k) inside)

rounded_zero : (d r : ℕ) → 0 < d → 2 * (d * r) ≤ d → r ≡ 0
rounded_zero d r pos h = elim (dec_le r 0) [
  | yes p ↦ omega arith
  | no p ↦ let more = mul-le-mul_left {m = 1} {n = r} d (omega arith) in omega arith
]

round_half_even_zero : (d : ℕ) → 0 < d → round_half_even 0 d ≡ 0
round_half_even_zero d pos =
    let (p, q) = round_half_even-nearest 0 d pos in
    rounded_zero d (round_half_even 0 d) pos (omega arith)

negative_zero : (c d : ℕ) → in_unit true c d ≡ true → c ≡ 0
negative_zero c d h = ground arith

quantized_negative :
    (raw : Option Decimal) {m : Millionths}
    → quantized raw ≡ ok m
    → m.negative ≡ true
    → m.amount ≡ 0
unfolding quantized
quantized_negative none h n = cc
quantized_negative (some special) h n = cc
quantized_negative (some (finite false c k)) h n = ground arith
quantized_negative (some (finite true c k)) h n =
    let (u, tested, made) = >>=-eq-ok (guard (in_unit true c (10 ^ k)) invalid) _ h in
    let none_left = negative_zero c (10 ^ k) (guard-eq-ok _ invalid tested) in
    rw (sym (ok-injective made), none_left) (round_half_even_zero (10 ^ k) (pow-pos k))

module _ ⦃f : Formats⦄ where
  normalized_negative :
      (raw : Option String) {m : Millionths}
      → normalized raw ≡ ok m
      → m.negative ≡ true
      → m.amount ≡ 0
  unfolding normalized
  normalized_negative none h n = ground arith
  normalized_negative (some raw) h n = quantized_negative (f.decimal raw) h n

  normalized-le :
      (raw : Option String) {m : Millionths} → normalized raw ≡ ok m → m.amount ≤ 1000000
  unfolding normalized
  normalized-le none h = ground arith
  normalized-le (some raw) h = quantized-le (f.decimal raw) h

  -- What a component of a score promises.
  pub record Bounded (c : ScoreComponent) : Type 0 where
    pub normal : c.normalized_value.amount ≤ 1000000
    pub not_below : c.normalized_value.negative ≡ true → c.normalized_value.amount ≡ 0
    pub same_sign : c.weighted_score.negative ≡ c.normalized_value.negative
    pub weighted : c.weighted_score.amount ≡ c.normalized_value.amount * c.weight

  score_component-Bounded :
      (scores : List (String × String)) (references : List String) (d : ComponentDefinition)
      {c : ScoreComponent}
      → score_component scores references d ≡ ok c
      → Bounded c × (c.weight ≡ d.weight)
  unfolding score_component
  score_component-Bounded scores references d h =
      let (value, returned, made) = >>=-eq-ok (normalized (score_of d.code scores)) _ h in
      let small = normalized-le (score_of d.code scores) returned in
      let zero = normalized_negative (score_of d.code scores) returned in
      rw (sym (ok-injective made))
        (record { normal = small; not_below = zero; same_sign = refl; weighted = refl }, refl)

  weighted_negative :
      (c : ScoreComponent)
      → Bounded c
      → c.weighted_score.negative ≡ true
      → c.weighted_score.amount ≡ 0
  weighted_negative c b n = rw (b.weighted, b.not_below (cc b.same_sign)) (omega arith)

  -- Nothing is taken from such scores.
  pub losses-Bounded : (cs : List ScoreComponent) → All Bounded cs → losses cs ≡ 0
  losses-Bounded [] h = refl
  losses-Bounded (c ∷ cs) h =
      let rest = losses-Bounded cs h.1 in
      elim (Bool-cases c.weighted_score.negative) [
        | inl below ↦ rw (below, weighted_negative c h.0 below, rest) refl
        | inr above ↦ rw (above, rest) refl
      ]

  abbrev pub total_weight : List ComponentDefinition → ℕ
  total_weight [] = 0
  total_weight (d ∷ ds) = d.weight + total_weight ds

  weighted-le : (c : ScoreComponent) → Bounded c → c.weighted_score.amount ≤ 1000000 * c.weight
  weighted-le c b = let more = mul-le-mul_right c.weight b.normal in omega (arith, b.weighted)

  map_result-Bounded :
      (scores : List (String × String)) (references : List String) (ds : List ComponentDefinition)
      {cs : List ScoreComponent}
      → map_result (score_component scores references) ds ≡ ok cs
      → All Bounded cs × (gains cs ≤ 1000000 * total_weight ds)
  map_result-Bounded scores references [] h = rw (sym (ok-injective h)) (tt, omega arith)
  map_result-Bounded scores references (d ∷ ds) h =
      let (c, scored, h1) = >>=-eq-ok (score_component scores references d) _ h in
      let (cs, rest, made) = >>=-eq-ok (map_result (score_component scores references) ds) _ h1 in
      let (bounded, weight) = score_component-Bounded scores references d scored in
      let (all_bounded, total) = map_result-Bounded scores references ds rest in
      rw (sym (ok-injective made))
        ((bounded, all_bounded), (let small = weighted-le c bounded in grind (arith, weight)))

  -- The scores of a worker under a registered policy: each score is normalized into [0, 1] and weighted by
  -- its weight, and they sum up to at most 100.
  pub score_components-Bounded :
      (version : String) (policy : ScoringPolicy) (scores : List (String × String))
      (references : List String) {cs : List ScoreComponent}
      → policy_for version ≡ ok policy
      → score_components scores references policy ≡ ok cs
      → All Bounded cs × (total_score cs ≤ 100000000)
  unfolding policy_for score_components
  score_components-Bounded version policy scores references q h =
      let (bounded, total) = map_result-Bounded scores references policy.components h in
      let same : policy ≡ scoring_policy_v1 = ground arith in
      (bounded, omega (arith, ap (λ (q : ScoringPolicy). total_weight q.components) same))
