-- ===== src/Usage/Tests.antt =====
-- Accounts of concrete reports.
use deepswe_eval_lab.Base.{
  ℕ, ◌≡◌, refl, true, false, not, ◌&&◌, Option, none, some, List, [], ◌∷◌, if◌then◌else◌, ok, map,
  all, is_empty,
}
use deepswe_eval_lab.Base.Int.{pos}
use deepswe_eval_lab.Base.Rat
use deepswe_eval_lab.Base.Json
use deepswe_eval_lab.Base.Json.{Json, Fields, null, int, str, arr, obj, field, end}
use deepswe_eval_lab.Usage.Reports.{Report, reports}
use deepswe_eval_lab.Usage.Reports
use deepswe_eval_lab.Usage.Values.{Resolution, reported, estimated, sum}
use deepswe_eval_lab.Usage.Account.{Accounting, account, accounting, aggregate}
use deepswe_eval_lab.Usage.Account
use deepswe_eval_lab.Usage.Values
use deepswe_eval_lab.Usage.Account.AddsUp.{IsBalanced, accounting-IsBalanced}
use deepswe_eval_lab.Usage.Account.Total.{reports_all, input_of, accounting-input_tokens}
use deepswe_eval_lab.Usage.Account.Aggregate.{IsAccount, IsSum, aggregate-IsSum}

abbrev side : ℕ → Json
side n = obj (field "total" (int (pos n)) end)

abbrev totals : Json
totals = obj (field "input" (side 7) (field "output" (side 3) end))

-- Two turns: one with tokens and a cost, one without a report.
abbrev usage : Fields
usage = field "usageSchema" (int (pos 2)) (
    field "turns" (int (pos 2)) (
      field "usageReports"
        (arr (
          Json.Items.cons
            (obj (
              field "tokens" (obj (field "coverage" (str "complete") (field "totals" totals end))) (
                field "cost"
                  (obj (
                    field "amount" (int (pos 2))
                      (field "currency" (str "USD") (field "source" (str "agent-estimate") end))))
                  end)))
            (Json.Items.cons null Json.Items.nil)))
        end))

abbrev two_slots : List (Option Report)
two_slots =
    some (record {
      tokens = some (record {
        complete = true;
        totals = record { input = ("total", 7) ∷ []; output = ("total", 3) ∷ [] };
        has_records = false;
        records = [];
      });
      cost = some (record { amount = Rat.of_nat 2; source = "agent-estimate" });
    })
    ∷ none
    ∷ []

reports_run : reports usage ≡ ok two_slots
unfolding reports Reports.reports_loop Reports.report_of Reports.optional_tokens Reports.tokens_of
    Reports.validate_tokens Reports.side_of Reports.side_counts Reports.count Reports.number
    Reports.optional_cost Reports.validate_cost Json.get Json.find Json.to_list
reports_run = refl

abbrev resolutions : List Resolution
resolutions =
    reported (record { amount = Rat.of_nat 2; source = "agent-estimate" })
    ∷ estimated (Rat.of_nat 1) true
    ∷ []

abbrev role : Accounting
role = account two_slots (Rat.of_nat 4) (Rat.of_nat 900) resolutions

accounting_run : accounting two_slots (Rat.of_nat 4) (Rat.of_nat 900) (some resolutions) ≡ ok role
unfolding accounting
accounting_run = refl

accounting-IsBalanced_example : IsBalanced role
accounting-IsBalanced_example =
    accounting-IsBalanced two_slots (Rat.of_nat 4) (Rat.of_nat 900) (some resolutions) role
      accounting_run

accounting-input_tokens_example : role.input_tokens ≡ (
    if not (is_empty two_slots) && all reports_all two_slots
    then some (sum (map input_of two_slots))
    else none)
accounting-input_tokens_example =
    accounting-input_tokens usage two_slots (Rat.of_nat 4) (Rat.of_nat 900) (some resolutions) role
      reports_run accounting_run

role-IsAccount : IsAccount role
unfolding IsAccount account
role-IsAccount = accounting_run

abbrev both : Accounting
both =
    account (Account.all_reports (role ∷ role ∷ []))
      (Values.sum_costs (Rat.of_nat 4 ∷ Rat.of_nat 4 ∷ []))
      (Values.sum_costs (Rat.of_nat 900 ∷ Rat.of_nat 900 ∷ []))
      (Account.all_resolutions (role ∷ role ∷ []))

aggregate_run : aggregate (role ∷ role ∷ []) ≡ ok both
unfolding aggregate accounting account Account.all_reports Account.all_resolutions
aggregate_run = refl

aggregate-IsSum_example : IsSum (role ∷ role ∷ []) both
aggregate-IsSum_example =
    aggregate-IsSum (role ∷ role ∷ []) both (role-IsAccount, (role-IsAccount, tt)) aggregate_run
