-- ===== src/Eval/Scoring/Job.antt =====
-- agent_eval/patch_scoring.py: scoring a whole job, from its trials to the summary.
pub mod Complete
use deepswe_eval_lab.Base.{
  ℕ, String, Bool, true, false, not, Option, none, some, List, [], ◌∷◌, if◌then◌else◌, map, keep,
  is_empty, Result, ok, err, ◌>>=◌, ◌>>◌, reject,
}
use deepswe_eval_lab.Base.Dict
use deepswe_eval_lab.Base.Dict.{Dict}
use deepswe_eval_lab.Base.Json
use deepswe_eval_lab.Base.Json.{Json, Fields, str, as_dict, truthy}
use deepswe_eval_lab.Eval.Discovery.Layout.{Reason}
use deepswe_eval_lab.Eval.Scoring.Patches.{StagePatch, TrialPatchSet, StageScore}
use deepswe_eval_lab.Eval.Scoring.Pairs.{Pair, Revision, Scored, pair_of}
use deepswe_eval_lab.Eval.Scoring.Summary.{Summary, summarise}
use deepswe_eval_lab.Eval.Scoring.Work.{
  Host, UniqueWork, StageKey, Scores, get_score, Collected, ScoringError, tests_missing,
  job_artifacts, no_trials, layout_errors, key_error, collect, nothing,
}
use deepswe_eval_lab.Eval.Scoring.Verify.{
  VerificationRequest, VerificationRecord, ResultDir, scan_cached_results, run_works,
}

-- What reading a trial directory gives: its patches, or the reasons of a layout error.
abbrev pub Discovered : Type 0
Discovered = Result (List Reason) TrialPatchSet

unfoldable pub layout_problems : List Discovered → List (List Reason)
layout_problems [] = []
layout_problems (ok trial ∷ rest) = layout_problems rest
layout_problems (err e ∷ rest) = e ∷ layout_problems rest

unfoldable pub trials_of : List Discovered → List TrialPatchSet
trials_of [] = []
trials_of (ok trial ∷ rest) = trial ∷ trials_of rest
trials_of (err e ∷ rest) = trials_of rest

abbrev pub eligible_trials : List TrialPatchSet → List TrialPatchSet
eligible_trials trials = keep (λ (t : TrialPatchSet). t.eligible) trials

abbrev pub with_job_artifacts : List TrialPatchSet → List TrialPatchSet
with_job_artifacts trials = keep (λ (t : TrialPatchSet). truthy t.job_artifacts) trials

-- `str(x)`
abbrev text_or_show : Host → Json → String
text_or_show host (str s) = s
text_or_show host x = host.show x

-- The score of a stage with the result of its patch.
unfoldable pub attach_result : Host → UniqueWork → Option Fields → StageScore → StageScore
attach_result host work none score = score
attach_result host work (some result) score = record score {
  score_source = "direct";
  status = text_or_show host (Json.get "status" result);
  rewards = as_dict (Json.get "rewards" result);
  scored_in_trial = some (text_or_show host (Json.get "sourceTrial" result));
  cached = work.cached;
}

unfoldable pub attach : Host → Dict UniqueWork → StageScore → StageScore
attach host works score = elim (Dict.get score.fingerprint_id works) [
  | none ↦ score
  | some work ↦ attach_result host work work.result score
]

unfoldable pub attach_scores : Host → Dict UniqueWork → Scores → Scores
attach_scores host works [] = []
attach_scores host works ((key, score) ∷ rest) =
    (key, attach host works score) ∷ attach_scores host works rest

-- `stage_scores[key]`
unfoldable pub score_at : Scores → StageKey → Result ScoringError StageScore
score_at scores key = elim (get_score key scores) [
  | none ↦ err (key_error key.0 key.1)
  | some score ↦ ok score
]

-- The scores of the stages of a trial, for their rows.
unfoldable pub stages_at : Scores → String → List StagePatch → Result ScoringError (List StageScore)
stages_at scores trial [] = ok []
stages_at scores trial (stage ∷ rest) = do
  score ← score_at scores (trial, stage.stage_id)
  others ← stages_at scores trial rest
  ok (score ∷ others)

-- `stage_scores[(trial.trial_name, stage.parent_stage_id)]`: no score has None for a stage.
unfoldable pub parent_at : Scores → String → Option String → Result ScoringError StageScore
parent_at scores trial none = err (key_error trial "None")
parent_at scores trial (some parent) = score_at scores (trial, parent)

unfoldable pub revisions_at :
    Scores → String → List StagePatch → Result ScoringError (List Revision)
revisions_at scores trial [] = ok []
revisions_at scores trial (stage ∷ rest) = do
  child ← score_at scores (trial, stage.stage_id)
  parent ← parent_at scores trial stage.parent_stage_id
  others ← revisions_at scores trial rest
  ok (record { stage = stage; child = child; parent = parent } ∷ others)

-- `for stage in trial.stages[1:]`, less those that did not change.
abbrev pub changed_later : List StagePatch → List StagePatch
changed_later [] = []
changed_later (first ∷ rest) = keep (λ (s : StagePatch). s.changed) rest

-- The lookups of the loop over the trials, in the order in which it makes them.
unfoldable pub scored_of : Scores → TrialPatchSet → Result ScoringError Scored
scored_of scores trial = do
  final ← score_at scores (trial.trial_name, "final")
  stages ← stages_at scores trial.trial_name trial.stages
  initial ← score_at scores (trial.trial_name, "initial")
  revisions ← revisions_at scores trial.trial_name (changed_later trial.stages)
  ok (record {
    trial = trial;
    final = final;
    stages = stages;
    initial = initial;
    revisions = revisions;
  })

unfoldable pub scored_trials : Scores → List TrialPatchSet → Result ScoringError (List Scored)
scored_trials scores [] = ok []
scored_trials scores (trial ∷ rest) = do
  scored ← scored_of scores trial
  others ← scored_trials scores rest
  ok (scored ∷ others)

pub record ScoreOptions : Type 0 where
  pub reuse_final_score : Bool
  pub force : Bool

pub record Job : Type 0 where
  pub works : Dict UniqueWork
  pub scores : Scores
  pub pairs : List Pair
  pub summary : Summary

-- The part after the checks on the trials.
unfoldable pub score_eligible :
    Host
    → (VerificationRequest → VerificationRecord)
    → String
    → ScoreOptions
    → Dict String
    → List (List ResultDir)
    → List TrialPatchSet
    → Result ScoringError Job
score_eligible host verify_patch now options identity dirs eligible = do
  c ← collect host options.reuse_final_score identity eligible nothing
  let cache = if options.force then [] else scan_cached_results dirs []
  let works = run_works host verify_patch now identity cache c.works
  let scores = attach_scores host works c.scores
  scored ← scored_trials scores eligible
  ok (record {
    works = works;
    scores = scores;
    pairs = map (pair_of options.reuse_final_score) scored;
    summary = summarise options.reuse_final_score scored;
  })

-- `score_patch_job`, on the trials that were selected.
unfoldable pub score_patch_job :
    Host
    → (VerificationRequest → VerificationRecord)
    → String
    → ScoreOptions
    → Dict String
    → List (List ResultDir)
    → List Discovered
    → Result ScoringError Job
score_patch_job host verify_patch now options identity dirs discovered = do
  reject (is_empty discovered) no_trials
  reject (not (is_empty (layout_problems discovered))) (layout_errors (layout_problems discovered))
  let eligible = eligible_trials (trials_of discovered)
  reject (not (is_empty (with_job_artifacts eligible)))
      (job_artifacts (map (λ (t : TrialPatchSet). t.trial_name) (with_job_artifacts eligible)))
  score_eligible host verify_patch now options identity dirs eligible
