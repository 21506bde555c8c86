-- ===== src/Eval/Scoring/Summary/ExitCode.antt =====
-- When scoring a job exits with 0.
use deepswe_eval_lab.Base.{
  ◌≡◌, refl, subst, ◌⊎◌, inl, inr, String, Bool, true, false, not, ◌&&◌, ◌||◌, List, [], ◌∷◌, ◌==◌,
  if◌then◌else◌, is_empty, keep, all, map, arith, Bool-cases, Option-cases,
}
use deepswe_eval_lab.Base.Json
use deepswe_eval_lab.Base.Json.{Fields, end}
use deepswe_eval_lab.Eval.Models.{given}
use deepswe_eval_lab.Eval.Scoring.Equality.{json_eq}
use deepswe_eval_lab.Eval.Scoring.Patches.{TrialPatchSet, StageScore}
use deepswe_eval_lab.Eval.Scoring.Pairs.{
  Pair, Scored, is_none, compare_final, conformance, final_score, pair_of,
}
use deepswe_eval_lab.Eval.Scoring.Stats.{is_complete}
use deepswe_eval_lab.Eval.Scoring.Summary.{conforms, exit_code, summary, summarise}

-- The final score was run again and agrees with the evaluation.
abbrev pub is_matched : Pair → Bool
is_matched p = p.final_conformance == "matched"

unfoldable pub IsKind : String → Type 0
IsKind s = (s ≡ "matched") ⊎ (s ≡ "mismatched") ⊎ (s ≡ "unavailable")

compare_final-IsKind :
    (rewards : Fields) (score : StageScore) → IsKind (compare_final rewards score)
unfolding compare_final IsKind
compare_final-IsKind rewards score =
    elim (Bool-cases
      (json_eq (Json.get "reward" rewards) (Json.get "reward" (given score.rewards end)))) [
        | inl e ↦ inl (ground arith)
        | inr e ↦ inr (inl (ground arith))
      ]

pub conformance-IsKind :
    (trial : TrialPatchSet) (score : StageScore) → IsKind (conformance trial score)
unfolding conformance IsKind
conformance-IsKind trial score = elim (Option-cases trial.eval_final_rewards) [
  | inl e ↦ inr (inr (ground arith))
  | inr (rewards, e) ↦ elim (Bool-cases (score.status == "success")) [
    | inl f ↦ subst IsKind (ground arith) (compare_final-IsKind rewards score)
    | inr f ↦ inr (inr (ground arith))
  ]
]

kinds :
    (s : String)
    → IsKind s
    → (s == "matched") ≡ (not (s == "mismatched") && not (s == "unavailable"))
unfolding IsKind
kinds s (inl e) = rw e refl
kinds s (inr (inl e)) = rw e refl
kinds s (inr (inr e)) = rw e refl

conformance_kinds :
    (trial : TrialPatchSet) (score : StageScore)
    → (conformance trial score == "matched") ≡ (
        not (conformance trial score == "mismatched")
        && not (conformance trial score == "unavailable"))
conformance_kinds trial score = kinds (conformance trial score) (conformance-IsKind trial score)

is_empty-keep :
    {A : Type 0} (p : A → Bool) (xs : List A) → is_empty (keep p xs) ≡ all (λ x. not (p x)) xs
is_empty-keep p [] = refl
is_empty-keep p (x ∷ xs) = ground (arith, is_empty-keep p xs)

all_split :
    (trials : List Scored)
    → (all (λ p. not (conforms "mismatched" p)) (map (pair_of false) trials)
        && all (λ p. not (conforms "unavailable" p)) (map (pair_of false) trials))
      ≡ all is_matched (map (pair_of false) trials)
unfolding pair_of final_score
all_split [] = refl
all_split (t ∷ ts) = ground (arith, conformance_kinds t.trial t.final, all_split ts)

exit_code-reuse : (rows : List Pair) → exit_code true rows ≡ (if all is_complete rows then 0 else 1)
unfolding exit_code
exit_code-reuse rows = ground (arith, is_empty-keep (λ p. is_none p.delta) rows)

exit_code-direct :
    (rows : List Pair)
    → exit_code false rows ≡ (
        if all is_complete rows
          && (all (λ p. not (conforms "mismatched" p)) rows
              && all (λ p. not (conforms "unavailable" p)) rows)
        then 0
        else 1)
unfolding exit_code
exit_code-direct rows = ground (
  arith,
  is_empty-keep (λ p. is_none p.delta) rows,
  is_empty-keep (conforms "mismatched") rows,
  is_empty-keep (conforms "unavailable") rows,
)

-- The exit code of a job is 0 exactly if every trial has a first and a final reward and, unless the
-- final score of the evaluation is reused, every final reward that was run again agrees with it.
pub summarise-exit_code :
    (reuse : Bool) (trials : List Scored)
    → (summarise reuse trials).code ≡ (
        if all is_complete (map (pair_of reuse) trials)
          && (reuse || all is_matched (map (pair_of reuse) trials))
        then 0
        else 1)
unfolding summarise summary
summarise-exit_code true trials = ground (arith, exit_code-reuse (map (pair_of true) trials))
summarise-exit_code false trials =
    ground (arith, exit_code-direct (map (pair_of false) trials), all_split trials)
