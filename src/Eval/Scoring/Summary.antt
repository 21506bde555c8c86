-- ===== src/Eval/Scoring/Summary.antt =====
-- agent_eval/patch_scoring.py: the summary of a job and its exit code.
pub mod ExitCode
pub mod Coverage
use deepswe_eval_lab.Base.{
  ℕ, ◌-◌, String, Bool, true, false, not, ◌&&◌, ◌||◌, List, [], ◌∷◌, ◌==◌, if◌then◌else◌, length,
  keep, count_if, map, is_empty,
}
use deepswe_eval_lab.Eval.Scoring.Pairs.{Pair, Scored, is_none, pair_of}
use deepswe_eval_lab.Eval.Scoring.Stats.{PairStats, pair_stats, pair_name}

abbrev pub conforms : String → Pair → Bool
conforms kind p = p.final_conformance == kind

-- `exit_code`: 1 after any of the three problems.
unfoldable pub exit_code : Bool → List Pair → ℕ
exit_code reuse rows =
    if not (is_empty (keep (λ p. is_none p.delta) rows))
    then 1
    else if not reuse
        && (not (is_empty (keep (conforms "mismatched") rows))
            || not (is_empty (keep (conforms "unavailable") rows)))
    then 1
    else 0

pub record Summary : Type 0 where
  pub complete_pairs : ℕ
  pub incomplete_pairs : List String
  pub matched : ℕ
  pub mismatched : List String
  pub skipped : ℕ
  pub unavailable : List String
  pub intention_to_treat : PairStats
  pub completed_protocol : PairStats
  pub code : ℕ

abbrev pub itt_pairs : List Pair → List Pair
itt_pairs rows = keep (λ p. p.itt_included) rows

unfoldable pub summary : Bool → List Pair → Summary
summary reuse rows = record {
  complete_pairs = length rows - length (keep (λ p. is_none p.delta) rows);
  incomplete_pairs = map pair_name (keep (λ p. is_none p.delta) rows);
  matched = count_if (conforms "matched") rows;
  mismatched = map pair_name (keep (conforms "mismatched") rows);
  skipped = count_if (conforms "skipped") rows;
  unavailable = map pair_name (keep (conforms "unavailable") rows);
  intention_to_treat = pair_stats (itt_pairs rows);
  completed_protocol = pair_stats (keep (λ p. p.completed_protocol) (itt_pairs rows));
  code = exit_code reuse rows;
}

-- The summary of the trials that were scored.
unfoldable pub summarise : Bool → List Scored → Summary
summarise reuse trials = summary reuse (map (pair_of reuse) trials)
