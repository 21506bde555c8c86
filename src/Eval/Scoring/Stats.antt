-- ===== src/Eval/Scoring/Stats.antt =====
-- agent_eval/patch_scoring.py: the statistics of a list of pairs.
pub mod Partition
pub mod Table
pub mod Sign
use deepswe_eval_lab.Base.{
  ℕ, zero, suc, ◌+◌, ◌*◌, ◌^◌, min, String, Bool, true, false, not, ◌&&◌, Option, none, some, List,
  [], ◌∷◌, ◌==◌, if◌then◌else◌, length, keep, count_if, map, leb, eqb, ◌<>◌,
}
use deepswe_eval_lab.Base.Int.{ℤ, pos}
use deepswe_eval_lab.Base.Rat
use deepswe_eval_lab.Base.Rat.{Rat}
use deepswe_eval_lab.Eval.Scoring.Pairs.{Pair, is_none}

-- `math.comb`
unfoldable pub comb : ℕ → ℕ → ℕ
comb n zero = 1
comb zero (suc k) = 0
comb (suc n) (suc k) = comb n k + comb n (suc k)

-- `sum(math.comb(n, k) for k in range(tail + 1))`
unfoldable pub comb_sum : ℕ → ℕ → ℕ
comb_sum n zero = comb n zero
comb_sum n (suc tail) = comb_sum n tail + comb n (suc tail)

abbrev pub p_value : ℕ → ℕ → Rat
p_value n cumulative =
    if leb (2 ^ n) (2 * cumulative)
    then Rat.of_nat 1
    else record { num = pos (2 * cumulative); den = 2 ^ n }

unfoldable pub mcnemar_exact_p : ℕ → ℕ → Option Rat
mcnemar_exact_p improved harmed =
    if eqb (improved + harmed) 0
    then none
    else some (p_value (improved + harmed) (comb_sum (improved + harmed) (min improved harmed)))

pub record TwoByTwo : Type 0 where
  pub failed_both : ℕ
  pub improved : ℕ
  pub harmed : ℕ
  pub passed_both : ℕ

pub record PairStats : Type 0 where
  pub pairs : ℕ
  pub complete : ℕ
  pub initial_pass_rate : Option Rat
  pub final_pass_rate : Option Rat
  pub improved : ℕ
  pub harmed : ℕ
  pub unchanged : ℕ
  pub two_by_two : TwoByTwo
  pub mean_paired_delta : Option Rat
  pub mcnemar_p : Option Rat
  pub improved_trials : List String
  pub harmed_trials : List String

-- `reward == 1`
unfoldable pub is_one : Option Rat → Bool
is_one none = false
is_one (some x) = Rat.eq x (Rat.of_nat 1)

abbrev pub has_class : String → Pair → Bool
has_class name p = p.classification == name

abbrev pub is_complete : Pair → Bool
is_complete p = not (is_none p.delta)

abbrev pub failed_both : Pair → Bool
failed_both p = not (is_one p.initial_reward) && not (is_one p.final_reward)

abbrev pub passed_both : Pair → Bool
passed_both p = is_one p.initial_reward && is_one p.final_reward

-- `a / n if complete else None`
abbrev pub rate : ℕ → ℕ → Option Rat
rate a zero = none
rate a (suc n) = some (record { num = pos a; den = suc n })

unfoldable pub delta_sum : List Pair → Rat
delta_sum [] = Rat.of_nat 0
delta_sum (p ∷ ps) = elim p.delta [ none ↦ delta_sum ps | some d ↦ Rat.add d (delta_sum ps) ]

abbrev mean_of : Rat → ℕ → Option Rat
mean_of total zero = none
mean_of total (suc n) = some (record { num = total.num; den = total.den * suc n })

abbrev pub pair_name : Pair → String
pair_name p = p.task <> "/" <> p.trial

abbrev stats_of : ℕ → List Pair → PairStats
stats_of pairs complete = record {
  pairs = pairs;
  complete = length complete;
  initial_pass_rate = rate (count_if (λ p. is_one p.initial_reward) complete) (length complete);
  final_pass_rate = rate (count_if (λ p. is_one p.final_reward) complete) (length complete);
  improved = count_if (has_class "improved") complete;
  harmed = count_if (has_class "harmed") complete;
  unchanged = count_if (has_class "unchanged") complete;
  two_by_two = record {
    failed_both = count_if failed_both complete;
    improved = count_if (has_class "improved") complete;
    harmed = count_if (has_class "harmed") complete;
    passed_both = count_if passed_both complete;
  };
  mean_paired_delta = mean_of (delta_sum complete) (length complete);
  mcnemar_p =
      mcnemar_exact_p (count_if (has_class "improved") complete)
        (count_if (has_class "harmed") complete);
  improved_trials = map pair_name (keep (has_class "improved") complete);
  harmed_trials = map pair_name (keep (has_class "harmed") complete);
}

-- `_pair_stats`, without its bootstrap interval.
unfoldable pub pair_stats : List Pair → PairStats
pair_stats pairs = stats_of (length pairs) (keep is_complete pairs)
