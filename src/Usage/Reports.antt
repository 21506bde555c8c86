-- ===== src/Usage/Reports.antt =====
-- scripts/token_usage.py: the checks on the reports of a role, with what the accounting reads of them.
use deepswe_eval_lab.Base.{
  ℕ, String, Bool, true, false, not, Option, none, some, List, [], ◌∷◌, ◌==◌, if◌then◌else◌, eqb,
  mem, length, Result, ok, err, ◌>>=◌, ◌>>◌, reject,
}
use deepswe_eval_lab.Base.Int.{pos}
use deepswe_eval_lab.Base.Rat
use deepswe_eval_lab.Base.Rat.{Rat}
use deepswe_eval_lab.Base.Dict.{Dict}
use deepswe_eval_lab.Base.Json
use deepswe_eval_lab.Base.Json.{Json, null, int, float, str, arr, obj, Fields, to_list}

-- A `ValueError` by its check, without the place that its message names; the `TypeError` of a value that
-- no set can hold; and the failed assertion of `_accounting`.
pub data UsageError : Type 0 where
  invalid_cost invalid_totals invalid_report invalid_coverage invalid_records invalid_record :
      UsageError
  invalid_total : (side : String) → UsageError
  invalid_count : (side key : String) → UsageError
  invalid_text : (key : String) → UsageError
  unsupported_schema not_one_slot_per_turn unhashable not_one_resolution_per_report : UsageError

abbrev pub Checked {ℓ} : Type ℓ → Type ℓ
Checked A = Result UsageError A

-- `_number(value)`: the value where it is a finite number, no bool, and not negative.
unfoldable pub number : Json → Option Rat
number (int (pos n)) = some (Rat.of_nat n)
number (float x) = if Rat.le (Rat.of_nat 0) x then some x else none
number _ = none

-- `_number(value, integer=True)`
unfoldable pub count : Json → Option ℕ
count (int (pos n)) = some n
count _ = none

-- `value in names`, for a set of texts.
abbrev pub in_set : List String → Json → Checked Bool
in_set names (str s) = ok (mem s names)
in_set names (arr xs) = err unhashable
in_set names (obj fs) = err unhashable
in_set names _ = ok false

-- `value == s`
abbrev pub equals_text : String → Json → Bool
equals_text s (str t) = t == s
equals_text s _ = false

abbrev text_of : Json → String
text_of (str s) = s
text_of _ = ""

pub record Cost : Type 0 where
  pub amount : Rat
  pub source : String

abbrev cost_sources : List String
cost_sources = "provider-reported" ∷ "agent-estimate" ∷ "account-estimate" ∷ []

abbrev priced : Fields → Option Rat → Checked Cost
priced cost none = err invalid_cost
priced cost (some amount) = do
  reject (not (equals_text "USD" (Json.get "currency" cost))) invalid_cost
  known ← in_set cost_sources (Json.get "source" cost)
  reject (not known) invalid_cost
  ok (record { amount = amount; source = text_of (Json.get "source" cost) })

-- `_validate_cost`
unfoldable pub validate_cost : Json → Checked Cost
validate_cost (obj cost) = priced cost (number (Json.get "amount" cost))
validate_cost _ = err invalid_cost

-- `TOKEN_FIELDS`
abbrev pub input_keys : List String
input_keys = "total" ∷ "uncached" ∷ "cacheRead" ∷ "cacheWrite" ∷ []

abbrev pub output_keys : List String
output_keys = "total" ∷ "visible" ∷ "reasoning" ∷ []

-- The counts of a token report, by side and key.
pub record Totals : Type 0 where
  pub input : Dict ℕ
  pub output : Dict ℕ

abbrev pub counted : String → String → Json → Checked ℕ
counted side key value = elim (count value) [ none ↦ err (invalid_count side key) | some n ↦ ok n ]

abbrev pub with_count : String → String → Option Json → Checked (Dict ℕ) → Checked (Dict ℕ)
with_count side key none rest = rest
with_count side key (some value) rest = do
  n ← counted side key value
  others ← rest
  ok ((key, n) ∷ others)

-- The loop over the keys of a side: a key may be missing.
unfoldable pub side_counts : String → Fields → List String → Checked (Dict ℕ)
side_counts side values [] = ok []
side_counts side values (key ∷ keys) =
    with_count side key (Json.find key values) (side_counts side values keys)

abbrev pub is_some {ℓ} : {A : Type ℓ} → Option A → Bool
is_some none = false
is_some (some a) = true

-- The counts of a side, which must have a total.
unfoldable pub side_of : String → List String → Json → Checked (Dict ℕ)
side_of side keys (obj values) = do
  reject (not (is_some (count (Json.get "total" values)))) (invalid_total side)
  side_counts side values keys
side_of side keys _ = err (invalid_total side)

-- `_validate_tokens`
unfoldable pub validate_tokens : Json → Checked Totals
validate_tokens (obj tokens) = do
  input ← side_of "input" input_keys (Json.get "input" tokens)
  output ← side_of "output" output_keys (Json.get "output" tokens)
  ok (record { input = input; output = output })
validate_tokens _ = err invalid_totals

pub record ModelRecord : Type 0 where
  pub model : Option String
  pub provider : Option String
  pub totals : Totals
  pub cost : Option Cost

-- A key that is missing or a text.
abbrev optional_text : String → Fields → Checked (Option String)
optional_text key fs = elim (Json.find key fs) [
  | none ↦ ok none
  | some (str s) ↦ ok (some s)
  | some _ ↦ err (invalid_text key)
]

-- `if "cost" in fs: _validate_cost(fs["cost"], ...)`
unfoldable pub optional_cost : Fields → Checked (Option Cost)
optional_cost fs = elim (Json.find "cost" fs) [
  | none ↦ ok none
  | some value ↦ validate_cost value >>= λ cost. ok (some cost)
]

unfoldable pub record_of : Json → Checked ModelRecord
record_of (obj fs) = do
  model ← optional_text "model" fs
  provider ← optional_text "provider" fs
  totals ← validate_tokens (Json.get "tokens" fs)
  cost ← optional_cost fs
  ok (record { model = model; provider = provider; totals = totals; cost = cost })
record_of _ = err invalid_record

unfoldable pub records_loop : List Json → Checked (List ModelRecord)
records_loop [] = ok []
records_loop (x ∷ xs) = do first ← record_of x; others ← records_loop xs; ok (first ∷ others)

-- `tokens.get("records", [])`, with whether the key is there.
abbrev pub records_of : Option Json → Checked (Bool × List ModelRecord)
records_of none = ok (false, [])
records_of (some (arr xs)) = records_loop (to_list xs) >>= λ rs. ok (true, rs)
records_of (some _) = err invalid_records

pub record Tokens : Type 0 where
  pub complete : Bool
  pub totals : Totals
  pub has_records : Bool
  pub records : List ModelRecord

abbrev pub with_records : Bool → Totals → Bool × List ModelRecord → Tokens
with_records complete totals (has_records, rs) = record {
  complete = complete;
  totals = totals;
  has_records = has_records;
  records = rs;
}

unfoldable pub tokens_of : Json → Checked Tokens
tokens_of (obj tokens) = do
  known ← in_set ("complete" ∷ "partial" ∷ []) (Json.get "coverage" tokens)
  reject (not known) invalid_coverage
  totals ← validate_tokens (Json.get "totals" tokens)
  rs ← records_of (Json.find "records" tokens)
  ok (with_records (equals_text "complete" (Json.get "coverage" tokens)) totals rs)
tokens_of _ = err invalid_coverage

-- A report that a turn has: `tokens` and `cost` where it has them.
pub record Report : Type 0 where
  pub tokens : Option Tokens
  pub cost : Option Cost

-- `report["tokens"]`, where it is there.
unfoldable pub optional_tokens : Option Json → Checked (Option Tokens)
optional_tokens none = ok none
optional_tokens (some value) = tokens_of value >>= λ tokens. ok (some tokens)

-- A slot of a turn: nothing, or a report.
unfoldable pub report_of : Json → Checked (Option Report)
report_of null = ok none
report_of (obj fs) = do
  tokens ← optional_tokens (Json.find "tokens" fs)
  cost ← optional_cost fs
  ok (some (record { tokens = tokens; cost = cost }))
report_of _ = err invalid_report

unfoldable pub reports_loop : List Json → Checked (List (Option Report))
reports_loop [] = ok []
reports_loop (x ∷ xs) = do first ← report_of x; others ← reports_loop xs; ok (first ∷ others)

abbrev pub is_two : Json → Bool
is_two (int (pos n)) = eqb n 2
is_two (float x) = Rat.eq x (Rat.of_nat 2)
is_two _ = false

abbrev pub slots : Json → Option ℕ → Checked (List Json)
slots (arr xs) (some turns) =
    if eqb (length (to_list xs)) turns then ok (to_list xs) else err not_one_slot_per_turn
slots _ _ = err not_one_slot_per_turn

-- `_reports`
unfoldable pub reports : Fields → Checked (List (Option Report))
reports usage = do
  reject (not (is_two (Json.get "usageSchema" usage))) unsupported_schema
  values ← slots (Json.get "usageReports" usage) (count (Json.get "turns" usage))
  reports_loop values
