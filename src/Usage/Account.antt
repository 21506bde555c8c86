-- ===== src/Usage/Account.antt =====
-- scripts/token_usage.py: the account of a list of reports, and of several accounts.
pub mod AddsUp
pub mod Valid
pub mod Total
pub mod Aggregate
use Prim.Native.Nat.{Ordering}
use Prim.Native.String.{compare}
use deepswe_eval_lab.Base.{
  ℕ, zero, suc, ◌+◌, ◌-◌, String, ◌<>◌, Bool, true, false, not, ◌&&◌, ◌||◌, Option, none, some,
  List, [], ◌∷◌, ◌++◌, ◌==◌, if◌then◌else◌, eqb, map, keep, all, count_if, length, is_empty, Result,
  ok, err, ◌>>◌, reject,
}
use deepswe_eval_lab.Base.Rat
use deepswe_eval_lab.Base.Rat.{Rat}
use deepswe_eval_lab.Base.Dict
use deepswe_eval_lab.Base.Dict.{Dict}
use deepswe_eval_lab.Usage.Reports.{
  Checked, UsageError, not_one_resolution_per_report, Cost, Totals, ModelRecord, Tokens, Report,
  input_keys, output_keys,
}
use deepswe_eval_lab.Usage.Values.{
  Coverage, Resolution, cost_amount, cost_source, coverage, estimated, found, insert_text,
  is_available, is_complete, is_estimated, is_partial, is_reported, native_cost_resolution,
  reported, sorted_set, sum, sum_costs, sum_known, sum_known_costs, unavailable, with_found,
}
use deepswe_eval_lab.Usage.Values

abbrev pub tokens_in : Option Report → Option Tokens
tokens_in none = none
tokens_in (some report) = report.tokens

-- `[r["tokens"] for r in reports if r is not None and "tokens" in r]`
unfoldable pub tokens_of_reports : List (Option Report) → List Tokens
tokens_of_reports rs = found tokens_in rs

abbrev pub input_count : String → Tokens → Option ℕ
input_count key t = Dict.get key t.totals.input

abbrev pub output_count : String → Tokens → Option ℕ
output_count key t = Dict.get key t.totals.output

pub record Detail : Type 0 where
  pub observed : Option ℕ
  pub reported_turns : ℕ
  pub total : Option ℕ

-- One entry of `tokenDetails`.
unfoldable pub detail : Coverage → ℕ → List ℕ → Detail
detail cover turns values = record {
  observed = sum_known values;
  reported_turns = length values;
  total = if is_complete cover && eqb (length values) turns then sum_known values else none;
}

abbrev side_details :
    Coverage → ℕ → String → (String → Tokens → Option ℕ) → List Tokens → List String → Dict Detail
side_details cover turns side count_of ts [] = []
side_details cover turns side count_of ts (key ∷ keys) =
    (side <> "." <> key, detail cover turns (found (count_of key) ts))
    ∷ side_details cover turns side count_of ts keys

unfoldable pub token_details : Coverage → ℕ → List Tokens → Dict Detail
token_details cover turns ts =
    side_details cover turns "input" input_count ts input_keys
    ++ side_details cover turns "output" output_count ts output_keys

pub record ModelUsage : Type 0 where
  pub model : Option String
  pub provider : Option String
  pub records : ℕ
  pub observed_input_tokens : ℕ
  pub observed_output_tokens : ℕ
  pub observed_cost_usd : Option Rat
  pub cost_records : ℕ
  pub cost_sources : List String

abbrev same_text : Option String → Option String → Bool
same_text none none = true
same_text (some s) (some t) = s == t
same_text _ _ = false

abbrev same_key : ModelRecord → ModelRecord → Bool
same_key r s = same_text r.model s.model && same_text r.provider s.provider

-- `grouped.setdefault(key, []).append(record)`; a group is its first record and the later ones.
unfoldable pub add_record :
    ModelRecord → List (ModelRecord × List ModelRecord) → List (ModelRecord × List ModelRecord)
add_record r [] = (r, []) ∷ []
add_record r ((first, later) ∷ groups) =
    let rest = add_record r groups in
    if same_key first r then (first, later ++ r ∷ []) ∷ groups else (first, later) ∷ rest

unfoldable pub group_records :
    List ModelRecord → List (ModelRecord × List ModelRecord) → List (ModelRecord × List ModelRecord)
group_records [] groups = groups
group_records (r ∷ rs) groups = group_records rs (add_record r groups)

-- `r["tokens"][side]["total"]`, which a valid record has.
abbrev pub total_of : Dict ℕ → ℕ
total_of side = elim (Dict.get "total" side) [ none ↦ 0 | some n ↦ n ]

abbrev cost_of : ModelRecord → Option Cost
cost_of r = r.cost

abbrev usage_of : ModelRecord × List ModelRecord → ModelUsage
usage_of (first, later) =
    let rs = first ∷ later in
    let costs = found cost_of rs in
    record {
      model = first.model;
      provider = first.provider;
      records = length rs;
      observed_input_tokens = sum (map (λ (r : ModelRecord). total_of r.totals.input) rs);
      observed_output_tokens = sum (map (λ (r : ModelRecord). total_of r.totals.output) rs);
      observed_cost_usd = sum_known_costs (map (λ (c : Cost). c.amount) costs);
      cost_records = length costs;
      cost_sources = sorted_set (map (λ (c : Cost). c.source) costs);
    }

unfoldable pub all_records : List Tokens → List ModelRecord
all_records [] = []
all_records (t ∷ ts) = t.records ++ all_records ts

-- `_model_usage`
unfoldable pub model_usage : List (Option Report) → List ModelUsage
model_usage rs = map usage_of (group_records (all_records (tokens_of_reports rs)) [])

pub record Accounting : Type 0 where
  pub usage_reports : List (Option Report)
  pub turns : ℕ
  pub tool_uses : Rat
  pub wall_ms : Rat
  pub token_coverage : Coverage
  pub token_report_turns : ℕ
  pub complete_token_turns : ℕ
  pub partial_token_turns : ℕ
  pub missing_token_turns : ℕ
  pub observed_input_tokens : Option ℕ
  pub observed_output_tokens : Option ℕ
  pub input_tokens : Option ℕ
  pub output_tokens : Option ℕ
  pub token_details : Dict Detail
  pub cost_coverage : Coverage
  pub cost_resolutions : List Resolution
  pub cost_report_turns : ℕ
  pub cost_estimate_turns : ℕ
  pub cost_available_turns : ℕ
  pub partial_cost_estimate_turns : ℕ
  pub missing_cost_turns : ℕ
  pub reported_cost_usd : Option Rat
  pub estimated_cost_usd : Option Rat
  pub observed_cost_usd : Option Rat
  pub cost_usd : Option Rat
  pub cost_sources : List String
  pub model_record_turns : ℕ
  pub model_usage : List ModelUsage

abbrev pub when_complete {ℓ} : {A : Type ℓ} → Coverage → Option A → Option A
when_complete cover value = if is_complete cover then value else none

abbrev pub token_cover : List (Option Report) → Coverage
token_cover rs =
    let ts = tokens_of_reports rs in
    coverage (length ts) (length rs) (all (λ (t : Tokens). t.complete) ts)

abbrev pub cost_cover : List (Option Report) → List Resolution → Coverage
cost_cover rs resolutions =
    coverage (length (keep is_available resolutions)) (length rs)
      (all (λ r. not (is_partial r)) (keep is_estimated resolutions))

-- The account once the resolutions are known to be one for each report.
unfoldable pub account : List (Option Report) → Rat → Rat → List Resolution → Accounting
account rs tool_uses wall_ms resolutions =
    let ts = tokens_of_reports rs in
    let input = sum_known (found (input_count "total") ts) in
    let output = sum_known (found (output_count "total") ts) in
    let cost = sum_known_costs (found cost_amount (keep is_available resolutions)) in
    record {
      usage_reports = rs;
      turns = length rs;
      tool_uses = tool_uses;
      wall_ms = wall_ms;
      token_coverage = token_cover rs;
      token_report_turns = length ts;
      complete_token_turns = count_if (λ (t : Tokens). t.complete) ts;
      partial_token_turns = count_if (λ (t : Tokens). not t.complete) ts;
      missing_token_turns = length rs - length ts;
      observed_input_tokens = input;
      observed_output_tokens = output;
      input_tokens = when_complete (token_cover rs) input;
      output_tokens = when_complete (token_cover rs) output;
      token_details = token_details (token_cover rs) (length rs) ts;
      cost_coverage = cost_cover rs resolutions;
      cost_resolutions = resolutions;
      cost_report_turns = length (keep is_reported resolutions);
      cost_estimate_turns = length (keep is_estimated resolutions);
      cost_available_turns = length (keep is_available resolutions);
      partial_cost_estimate_turns = count_if is_partial (keep is_estimated resolutions);
      missing_cost_turns = length rs - length (keep is_available resolutions);
      reported_cost_usd = sum_known_costs (found cost_amount (keep is_reported resolutions));
      estimated_cost_usd = sum_known_costs (found cost_amount (keep is_estimated resolutions));
      observed_cost_usd = cost;
      cost_usd = when_complete (cost_cover rs resolutions) cost;
      cost_sources = sorted_set (found cost_source (keep is_available resolutions));
      model_record_turns = count_if (λ (t : Tokens). t.has_records) ts;
      model_usage = model_usage rs;
    }

abbrev pub given_resolutions : List (Option Report) → Option (List Resolution) → List Resolution
given_resolutions rs none = map native_cost_resolution rs
given_resolutions rs (some resolutions) = resolutions

-- `_accounting`
unfoldable pub accounting :
    List (Option Report) → Rat → Rat → Option (List Resolution) → Checked Accounting
accounting rs tool_uses wall_ms given =
    reject (not (eqb (length (given_resolutions rs given)) (length rs)))
      not_one_resolution_per_report
    >> ok (account rs tool_uses wall_ms (given_resolutions rs given))

unfoldable pub all_reports : List Accounting → List (Option Report)
all_reports [] = []
all_reports (u ∷ us) = u.usage_reports ++ all_reports us

unfoldable pub all_resolutions : List Accounting → List Resolution
all_resolutions [] = []
all_resolutions (u ∷ us) = u.cost_resolutions ++ all_resolutions us

-- `_aggregate`
unfoldable pub aggregate : List Accounting → Checked Accounting
aggregate us =
    accounting (all_reports us) (sum_costs (map (λ (u : Accounting). u.tool_uses) us))
      (sum_costs (map (λ (u : Accounting). u.wall_ms) us)) (some (all_resolutions us))
