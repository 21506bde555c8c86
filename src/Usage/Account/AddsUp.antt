-- ===== src/Usage/Account/AddsUp.antt =====
-- The counts of an account add up.
use deepswe_eval_lab.Base.{
  ◌+◌, ◌≤◌, ◌≡◌, refl, subst, Bool, not, Option, List, [], ◌∷◌, eqb, arith, keep, count_if, length,
  count_if-le-length, ok, after_check,
}
use deepswe_eval_lab.Base.Rat.{Rat}
use deepswe_eval_lab.Usage.Reports.{not_one_resolution_per_report, Tokens, Report}
use deepswe_eval_lab.Usage.Values.{
  Resolution, reported, estimated, unavailable, is_reported, is_estimated, is_available, is_partial,
  found,
}
use deepswe_eval_lab.Usage.Account.{
  tokens_of_reports, tokens_in, Accounting, account, accounting, given_resolutions,
}

pub length-found : {A B : Type 0} (f : A → Option B) (xs : List A) → length (found f xs) ≤ length xs
unfolding found
length-found f [] = omega arith
length-found f (x ∷ xs) = ground (arith, length-found f xs)

count_if-not :
    {A : Type 0} (p : A → Bool) (xs : List A)
    → count_if p xs + count_if (λ x. not (p x)) xs ≡ length xs
count_if-not p [] = refl
count_if-not p (x ∷ xs) = ground (arith, count_if-not p xs)

length-keep_le : {A : Type 0} (p : A → Bool) (xs : List A) → length (keep p xs) ≤ length xs
length-keep_le p [] = omega arith
length-keep_le p (x ∷ xs) = ground (arith, length-keep_le p xs)

length-keep-is_available :
    (rs : List Resolution)
    → length (keep is_reported rs) + length (keep is_estimated rs) ≡ length (keep is_available rs)
length-keep-is_available [] = refl
length-keep-is_available (reported cost ∷ rs) = omega (arith, length-keep-is_available rs)
length-keep-is_available (estimated amount complete ∷ rs) =
    omega (arith, length-keep-is_available rs)
length-keep-is_available (unavailable ∷ rs) = length-keep-is_available rs

-- Each turn is counted once by its tokens, and once by its cost.
pub record IsBalanced (a : Accounting) : Type 0 where
  pub reports : a.complete_token_turns + a.partial_token_turns ≡ a.token_report_turns
  pub tokens : a.token_report_turns + a.missing_token_turns ≡ a.turns
  pub available : a.cost_report_turns + a.cost_estimate_turns ≡ a.cost_available_turns
  pub costs : a.cost_available_turns + a.missing_cost_turns ≡ a.turns
  pub partial : a.partial_cost_estimate_turns ≤ a.cost_estimate_turns

-- An account is made from its arguments, with one resolution for each report.
pub accounting-account :
    (rs : List (Option Report)) (tool_uses wall_ms : Rat) (given : Option (List Resolution))
    {a : Accounting}
    → accounting rs tool_uses wall_ms given ≡ ok a
    → (resolutions : List Resolution) × (length resolutions ≡ length rs)
      × (account rs tool_uses wall_ms resolutions ≡ a)
unfolding accounting
accounting-account rs tool_uses wall_ms given h =
    after_check (not (eqb (length (given_resolutions rs given)) (length rs)))
      not_one_resolution_per_report h λ b h. (given_resolutions rs given, ground arith, cc h)

-- The turns of an account are those with complete, with partial and without tokens, and those with a reported, with an
-- estimated and without a cost; an estimate that is partial is among the estimated ones.
pub accounting-IsBalanced :
    (rs : List (Option Report)) (tool_uses wall_ms : Rat) (given : Option (List Resolution))
    (a : Accounting)
    → accounting rs tool_uses wall_ms given ≡ ok a
    → IsBalanced a
unfolding account tokens_of_reports
accounting-IsBalanced rs tool_uses wall_ms given a h =
    let (resolutions, n, e) = accounting-account rs tool_uses wall_ms given h in
    subst IsBalanced {y = a} e (record {
      reports = count_if-not (λ (t : Tokens). t.complete) (found tokens_in rs);
      tokens = omega (arith, length-found tokens_in rs);
      available = length-keep-is_available resolutions;
      costs = omega (arith, n, length-keep_le is_available resolutions);
      partial = count_if-le-length is_partial (keep is_estimated resolutions);
    })
