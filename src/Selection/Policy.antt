-- ===== src/Selection/Policy.antt =====
-- app/runtime/worker_selection/policy.py: the scoring policy and the scores of one worker.
pub mod Bounds
use Prim.Native.Nat.{◌/◌, ◌%◌, ◌^◌}
use Prim.Native.String.{◌++◌ as join}
use edgeiq.Base.{
  ℕ, ◌+◌, ◌-◌, ◌*◌, String, Bool, true, false, not, ◌&&◌, ◌||◌, Option, none, some, List, [], ◌∷◌,
  Result, ok, err, ◌>>=◌, ◌>>◌, guard, ltb, leb, ◌==◌, text_eq, nat_eq, map, map_result,
  if◌then◌else◌,
}
use edgeiq.Platform.{Interpreter, Value, text, int, array, items, document}
use edgeiq.Selection.Domain.{
  Formats, Decimal, finite, special, SelectionError, invalid, version_unsupported, Millionths,
  ScoreComponent,
}
use edgeiq.Selection.Serialization.{canonical_hash}

pub record ComponentDefinition : Type 0 where
  pub code : String
  pub weight : ℕ

pub record ScoringPolicy : Type 0 where
  pub version : String
  pub components : List ComponentDefinition

abbrev component : String → ℕ → ComponentDefinition
component code weight = record { code = code; weight = weight }

abbrev pub scoring_policy_v1 : ScoringPolicy
scoring_policy_v1 = record {
  version = "worker-selection.scoring.v1";
  components =
      component "CAPABILITY_FIT" 40
      ∷ component "ORGANIZATION_POLICY_PREFERENCE" 20
      ∷ component "LATENCY_OBJECTIVE" 15
      ∷ component "COST_PREFERENCE" 10
      ∷ component "AFFINITY_PREFERENCE" 10
      ∷ component "LOAD_BALANCE" 5
      ∷ [];
}

abbrev policy_registry : List ScoringPolicy
policy_registry = scoring_policy_v1 ∷ []

abbrev matching : String → List ScoringPolicy → List ScoringPolicy
matching version [] = []
matching version (q ∷ qs) =
    let rest = matching version qs in if q.version == version then q ∷ rest else rest

abbrev only : List ScoringPolicy → Result SelectionError ScoringPolicy
only (q ∷ []) = ok q
only _ = err version_unsupported

unfoldable pub policy_for : String → Result SelectionError ScoringPolicy
policy_for version = only (matching version policy_registry)

abbrev component_document : ComponentDefinition → Value
component_document c = document (("code", text c.code) ∷ ("weight", int c.weight) ∷ [])

-- The property `ScoringPolicy.canonical_hash`.
abbrev pub policy_hash : ⦃p : Interpreter⦄ → ⦃f : Formats⦄ → ScoringPolicy → String
policy_hash q = canonical_hash "worker-selection-policy" (
    document (
      ("version", text q.version)
      ∷ ("components", array (items (map component_document q.components)))
      ∷ []))

-- The quotient, rounded to the nearest natural number, a half to the even one.
unfoldable pub round_half_even : ℕ → ℕ → ℕ
round_half_even n d =
    if ltb (2 * (n % d)) d
    then n / d
    else if ltb d (2 * (n % d))
    then n / d + 1
    else (if n / d % 2 == 0 then n / d else n / d + 1)

-- The finite number, its coefficient over a power of ten, is in [0, 1]: a negative zero is in it.
abbrev in_unit : Bool → ℕ → ℕ → Bool
in_unit negative coefficient power = if negative then coefficient == 0 else leb coefficient power

unfoldable pub quantized : Option Decimal → Result SelectionError Millionths
unfolding round_half_even
quantized none = err invalid
quantized (some special) = err invalid
quantized (some (finite negative coefficient scale)) = do
  guard (in_unit negative coefficient (10 ^ scale)) invalid
  ok (record { negative = negative; amount = round_half_even (coefficient * 1000000) (10 ^ scale) })

-- `scores.get(code)`.
unfoldable pub score_of : String → List (String × String) → Option String
score_of code [] = none
score_of code ((k, v) ∷ rest) =
    let later = score_of code rest in if k == code then some v else later

module _ ⦃f : Formats⦄ where
  -- `_decimal`, and zero where the score is missing.
  unfoldable pub normalized : Option String → Result SelectionError Millionths
  unfolding quantized
  normalized none = ok (record { negative = false; amount = 0 })
  normalized (some raw) = quantized (f.decimal raw)

  -- A score and its weight have whole millionths as their product.
  unfoldable pub score_component :
      List (String × String)
      → List String
      → ComponentDefinition
      → Result SelectionError ScoreComponent
  unfolding normalized score_of
  score_component scores references definition = do
    let raw = score_of definition.code scores
    value ← normalized raw
    ok (record {
      component_code = definition.code;
      raw_value = raw;
      normalized_value = value;
      weight = definition.weight;
      weighted_score = record {
        negative = value.negative;
        amount = value.amount * definition.weight;
      };
      reason_code =
          join definition.code (elim raw [ none ↦ "_EVIDENCE_MISSING" | some v ↦ "_SCORED" ]);
      evidence_references = elim raw [ none ↦ [] | some v ↦ references ];
    })

  unfoldable pub score_components :
      List (String × String)
      → List String
      → ScoringPolicy
      → Result SelectionError (List ScoreComponent)
  score_components scores references policy =
      map_result (score_component scores references) policy.components

abbrev pub gains : List ScoreComponent → ℕ
gains [] = 0
gains (c ∷ cs) =
    let rest = gains cs in
    if c.weighted_score.negative then rest else c.weighted_score.amount + rest

abbrev pub losses : List ScoreComponent → ℕ
losses [] = 0
losses (c ∷ cs) =
    let rest = losses cs in
    if c.weighted_score.negative then c.weighted_score.amount + rest else rest

-- `sum(Decimal(component.weighted_score) …)`, the negative ones taken from the others. A negative sum would
-- be counted as 0 here; the scores of the evaluation have no negative part (`Selection.Policy.Bounds`).
abbrev pub total_score : List ScoreComponent → ℕ
total_score cs = gains cs - losses cs
