-- ===== src/Usage/Values.antt =====
-- scripts/token_usage.py: the costs of turns, the coverage, and sums of what is known.
use Prim.Native.Nat.{Ordering}
use Prim.Native.String.{compare}
use deepswe_eval_lab.Base.{
  ℕ, ◌+◌, String, Bool, true, false, not, ◌&&◌, Option, none, some, List, [], ◌∷◌, if◌then◌else◌,
  eqb,
}
use deepswe_eval_lab.Base.Rat
use deepswe_eval_lab.Base.Rat.{Rat}
use deepswe_eval_lab.Usage.Reports.{Cost, Report}

-- What is known of the cost of a turn; an estimate is complete or partial.
pub data Resolution : Type 0 where
  reported : Cost → Resolution
  estimated : (amount : Rat) (complete : Bool) → Resolution
  unavailable : Resolution

abbrev of_cost : Option Cost → Resolution
of_cost none = unavailable
of_cost (some cost) = reported cost

-- `_native_cost_resolution`
unfoldable pub native_cost_resolution : Option Report → Resolution
native_cost_resolution none = unavailable
native_cost_resolution (some report) = of_cost report.cost

unfoldable pub cost_amount : Resolution → Option Rat
cost_amount (reported cost) = some cost.amount
cost_amount (estimated amount complete) = some amount
cost_amount unavailable = none

unfoldable pub cost_source : Resolution → Option String
cost_source (reported cost) = some cost.source
cost_source (estimated amount complete) = some "cligent-estimate"
cost_source unavailable = none

abbrev pub is_reported : Resolution → Bool
is_reported (reported cost) = true
is_reported _ = false

abbrev pub is_estimated : Resolution → Bool
is_estimated (estimated amount complete) = true
is_estimated _ = false

abbrev pub is_available : Resolution → Bool
is_available unavailable = false
is_available _ = true

abbrev pub is_partial : Resolution → Bool
is_partial (estimated amount complete) = not complete
is_partial _ = false

pub data Coverage : Type 0 where
  complete partial unavailable : Coverage

-- `_coverage`
unfoldable pub coverage : ℕ → ℕ → Bool → Coverage
coverage reported_turns turns whole =
    if eqb reported_turns 0
    then Coverage.unavailable
    else if eqb reported_turns turns && whole
    then Coverage.complete
    else Coverage.partial

abbrev pub is_complete : Coverage → Bool
is_complete Coverage.complete = true
is_complete _ = false

abbrev pub with_found {ℓ} : {B : Type ℓ} → Option B → List B → List B
with_found none rest = rest
with_found (some b) rest = b ∷ rest

-- `[f(x) for x in xs if f(x) is not None]`
unfoldable pub found : {A B : Type 0} → (A → Option B) → List A → List B
found f [] = []
found f (x ∷ xs) = with_found (f x) (found f xs)

unfoldable pub sum : List ℕ → ℕ
sum [] = 0
sum (n ∷ ns) = n + sum ns

unfoldable pub sum_costs : List Rat → Rat
sum_costs [] = Rat.of_nat 0
sum_costs (x ∷ xs) = Rat.add x (sum_costs xs)

-- `_sum_known`, of counts and of costs.
unfoldable pub sum_known : List ℕ → Option ℕ
sum_known [] = none
sum_known (n ∷ ns) = some (sum (n ∷ ns))

unfoldable pub sum_known_costs : List Rat → Option Rat
sum_known_costs [] = none
sum_known_costs (x ∷ xs) = some (sum_costs (x ∷ xs))

-- `sorted({...})` of texts.
unfoldable pub insert_text : String → List String → List String
insert_text s [] = s ∷ []
insert_text s (t ∷ ts) =
    let rest = insert_text s ts in
    elim (compare s t) [ Ordering.lt ↦ s ∷ t ∷ ts | Ordering.eq ↦ t ∷ ts | Ordering.gt ↦ t ∷ rest ]

unfoldable pub sorted_set : List String → List String
sorted_set [] = []
sorted_set (s ∷ ss) = insert_text s (sorted_set ss)
