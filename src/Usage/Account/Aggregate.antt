-- ===== src/Usage/Account/Aggregate.antt =====
-- The account of several accounts: what it counts is the sum of what they count.
use deepswe_eval_lab.Base.{
  ℕ, ◌+◌, ◌≡◌, refl, ◌∙◌, subst, Bool, not, Option, none, some, List, [], ◌∷◌, ◌++◌, eqb, arith,
  keep, All, map, count_if, length, length-append, ok, after_check,
}
use deepswe_eval_lab.Base.Rat.{Rat}
use deepswe_eval_lab.Usage.Reports.{Tokens, Report, not_one_resolution_per_report}
use deepswe_eval_lab.Usage.Values.{
  Resolution, is_estimated, is_available, with_found, found, sum, sum_known,
}
use deepswe_eval_lab.Usage.Account.{
  tokens_of_reports, tokens_in, input_count, output_count, Accounting, account, accounting,
  all_reports, all_resolutions, aggregate,
}
use deepswe_eval_lab.Usage.Account.AddsUp.{accounting-account}

module _ {A B : Type 0} (f : A → Option B) where
  with_found-append :
      (o : Option B) (xs ys : List B) → with_found o (xs ++ ys) ≡ with_found o xs ++ ys
  with_found-append none xs ys = refl
  with_found-append (some b) xs ys = refl

  found-append : (xs ys : List A) → found f (xs ++ ys) ≡ found f xs ++ found f ys
  unfolding found
  found-append [] ys = refl
  found-append (x ∷ xs) ys =
      rw (found-append xs ys) (with_found-append (f x) (found f xs) (found f ys))

sum-append : (xs ys : List ℕ) → sum (xs ++ ys) ≡ sum xs + sum ys
unfolding sum
sum-append [] ys = omega arith
sum-append (x ∷ xs) ys = omega (arith, sum-append xs ys)

count_if-append :
    {A : Type 0} (p : A → Bool) (xs ys : List A)
    → count_if p (xs ++ ys) ≡ count_if p xs + count_if p ys
count_if-append p [] ys = omega arith
count_if-append p (x ∷ xs) ys = ground (arith, count_if-append p xs ys)

length-keep-append :
    {A : Type 0} (p : A → Bool) (xs ys : List A)
    → length (keep p (xs ++ ys)) ≡ length (keep p xs) + length (keep p ys)
length-keep-append p [] ys = omega arith
length-keep-append p (x ∷ xs) ys = ground (arith, length-keep-append p xs ys)

-- A measure of reports, or of resolutions, that adds up over parts adds up over accounts.
sum-all_reports :
    (c : List (Option Report) → ℕ) (field : Accounting → ℕ) (us : List Accounting)
    → c [] ≡ 0
    → ((xs ys : List (Option Report)) → c (xs ++ ys) ≡ c xs + c ys)
    → All (λ (u : Accounting). field u ≡ c u.usage_reports) us
    → c (all_reports us) ≡ sum (map field us)
unfolding all_reports sum
sum-all_reports c field [] z a v = z
sum-all_reports c field (u ∷ us) z a (v, vs) =
    omega (arith, a u.usage_reports (all_reports us), v, sum-all_reports c field us z a vs)

sum-all_resolutions :
    (c : List Resolution → ℕ) (field : Accounting → ℕ) (us : List Accounting)
    → c [] ≡ 0
    → ((xs ys : List Resolution) → c (xs ++ ys) ≡ c xs + c ys)
    → All (λ (u : Accounting). field u ≡ c u.cost_resolutions) us
    → c (all_resolutions us) ≡ sum (map field us)
unfolding all_resolutions sum
sum-all_resolutions c field [] z a v = z
sum-all_resolutions c field (u ∷ us) z a (v, vs) =
    omega
      (arith, a u.cost_resolutions (all_resolutions us), v, sum-all_resolutions c field us z a vs)

-- What an observed count adds: nothing where none is known.
abbrev pub known : Option ℕ → ℕ
known none = 0
known (some n) = n

known-sum_known : (ns : List ℕ) → known (sum_known ns) ≡ sum ns
unfolding sum_known sum
known-sum_known [] = refl
known-sum_known (n ∷ ns) = refl

-- An account that `_accounting` makes of its own reports and resolutions.
unfoldable pub IsAccount : Accounting → Type 0
IsAccount u = accounting u.usage_reports u.tool_uses u.wall_ms (some u.cost_resolutions) ≡ ok u

-- The sums of an account of accounts.
pub record IsSum (us : List Accounting) (a : Accounting) : Type 0 where
  pub turns : a.turns ≡ sum (map (λ (u : Accounting). u.turns) us)
  pub reports : a.token_report_turns ≡ sum (map (λ (u : Accounting). u.token_report_turns) us)
  pub completed : a.complete_token_turns ≡ sum (map (λ (u : Accounting). u.complete_token_turns) us)
  pub available : a.cost_available_turns ≡ sum (map (λ (u : Accounting). u.cost_available_turns) us)
  pub estimated : a.cost_estimate_turns ≡ sum (map (λ (u : Accounting). u.cost_estimate_turns) us)
  pub input :
      known a.observed_input_tokens
      ≡ sum (map (λ (u : Accounting). known u.observed_input_tokens) us)
  pub output :
      known a.observed_output_tokens
      ≡ sum (map (λ (u : Accounting). known u.observed_output_tokens) us)

abbrev report_turns : List (Option Report) → ℕ
report_turns rs = length (tokens_of_reports rs)

abbrev complete_turns : List (Option Report) → ℕ
complete_turns rs = count_if (λ (t : Tokens). t.complete) (tokens_of_reports rs)

abbrev observed : (Tokens → Option ℕ) → List (Option Report) → ℕ
observed f rs = sum (found f (tokens_of_reports rs))

report_turns-append :
    (xs ys : List (Option Report)) → report_turns (xs ++ ys) ≡ report_turns xs + report_turns ys
unfolding tokens_of_reports
report_turns-append xs ys =
    rw (found-append tokens_in xs ys) (length-append (found tokens_in xs) (found tokens_in ys))

complete_turns-append :
    (xs ys : List (Option Report))
    → complete_turns (xs ++ ys) ≡ complete_turns xs + complete_turns ys
unfolding tokens_of_reports
complete_turns-append xs ys =
    rw (found-append tokens_in xs ys) (count_if-append _ (found tokens_in xs) (found tokens_in ys))

observed-append :
    (f : Tokens → Option ℕ) (xs ys : List (Option Report))
    → observed f (xs ++ ys) ≡ observed f xs + observed f ys
unfolding tokens_of_reports
observed-append f xs ys =
    rw (found-append tokens_in xs ys, found-append f (found tokens_in xs) (found tokens_in ys))
      (sum-append (found f (found tokens_in xs)) (found f (found tokens_in ys)))

-- The fields of an account, as measures.
record IsMeasured (u : Accounting) : Type 0 where
  turns : u.turns ≡ length u.usage_reports
  reports : u.token_report_turns ≡ report_turns u.usage_reports
  completed : u.complete_token_turns ≡ complete_turns u.usage_reports
  available : u.cost_available_turns ≡ length (keep is_available u.cost_resolutions)
  estimated : u.cost_estimate_turns ≡ length (keep is_estimated u.cost_resolutions)
  input : known u.observed_input_tokens ≡ observed (input_count "total") u.usage_reports
  output : known u.observed_output_tokens ≡ observed (output_count "total") u.usage_reports

account-IsMeasured :
    (rs : List (Option Report)) (tool_uses wall_ms : Rat) (resolutions : List Resolution)
    → IsMeasured (account rs tool_uses wall_ms resolutions)
unfolding account
account-IsMeasured rs tool_uses wall_ms resolutions = record {
  turns = refl;
  reports = refl;
  completed = refl;
  available = refl;
  estimated = refl;
  input = known-sum_known _;
  output = known-sum_known _;
}

accounting-IsMeasured :
    (rs : List (Option Report)) (tool_uses wall_ms : Rat) (given : Option (List Resolution))
    {a : Accounting}
    → accounting rs tool_uses wall_ms given ≡ ok a
    → IsMeasured a
accounting-IsMeasured rs tool_uses wall_ms given {a} h =
    let (resolutions, n, e) = accounting-account rs tool_uses wall_ms given h in
    subst IsMeasured {y = a} e (account-IsMeasured rs tool_uses wall_ms resolutions)

-- From each account of a list.
each :
    (P : Accounting → Type 0) (us : List Accounting)
    → ((u : Accounting) → IsMeasured u → P u)
    → All IsAccount us
    → All P us
unfolding IsAccount
each P [] k v = tt
each P (u ∷ us) k (v, vs) = (
  k u (accounting-IsMeasured u.usage_reports u.tool_uses u.wall_ms (some u.cost_resolutions) v),
  each P us k vs,
)

account-IsSum :
    (us : List Accounting) (tool_uses wall_ms : Rat)
    → All IsAccount us
    → IsSum us (account (all_reports us) tool_uses wall_ms (all_resolutions us))
unfolding tokens_of_reports found account all_reports sum
account-IsSum us tool_uses wall_ms v =
    let m = account-IsMeasured (all_reports us) tool_uses wall_ms (all_resolutions us) in
    record {
      turns =
          m.turns ∙ sum-all_reports length _ us refl length-append (each _ us (λ u n. n.turns) v);
      reports =
          m.reports
          ∙ sum-all_reports report_turns _ us refl report_turns-append
              (each _ us (λ u n. n.reports) v);
      completed =
          m.completed
          ∙ sum-all_reports complete_turns _ us refl complete_turns-append
              (each _ us (λ u n. n.completed) v);
      available =
          m.available
          ∙ sum-all_resolutions (λ rs. length (keep is_available rs)) _ us refl
              (length-keep-append is_available) (each _ us (λ u n. n.available) v);
      estimated =
          m.estimated
          ∙ sum-all_resolutions (λ rs. length (keep is_estimated rs)) _ us refl
              (length-keep-append is_estimated) (each _ us (λ u n. n.estimated) v);
      input =
          m.input
          ∙ sum-all_reports (observed (input_count "total")) _ us refl
              (observed-append (input_count "total")) (each _ us (λ u n. n.input) v);
      output =
          m.output
          ∙ sum-all_reports (observed (output_count "total")) _ us refl
              (observed-append (output_count "total")) (each _ us (λ u n. n.output) v);
    }

accounting-some :
    (rs : List (Option Report)) (tool_uses wall_ms : Rat) (resolutions : List Resolution)
    {a : Accounting}
    → accounting rs tool_uses wall_ms (some resolutions) ≡ ok a
    → account rs tool_uses wall_ms resolutions ≡ a
unfolding accounting
accounting-some rs tool_uses wall_ms resolutions h =
    after_check (not (eqb (length resolutions) (length rs))) not_one_resolution_per_report h
      λ b h. cc h

-- The account of several accounts counts what they count together: their turns, their turns with tokens, with complete
-- tokens, with a cost and with an estimate, and their observed input and output tokens.
pub aggregate-IsSum :
    (us : List Accounting) (a : Accounting) → All IsAccount us → aggregate us ≡ ok a → IsSum us a
unfolding aggregate
aggregate-IsSum us a v h =
    subst (IsSum us) {y = a} (accounting-some (all_reports us) _ _ (all_resolutions us) h)
      (account-IsSum us _ _ v)
