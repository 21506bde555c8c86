-- ===== src/Eval/Scoring/Tests.antt =====
-- Runs of the scorer at concrete inputs.
use deepswe_eval_lab.Base.{
  String, ◌+◌, ◌≡◌, refl, inl, inr, true, false, none, some, List, [], ◌∷◌, ok, map, length, All,
  if◌then◌else◌, ◌&&◌, ◌||◌, ◌≤◌, all,
}
use deepswe_eval_lab.Base.Dict
use deepswe_eval_lab.Base.Dict.{Dict}
use deepswe_eval_lab.Base.Int.{pos}
use deepswe_eval_lab.Base.Rat
use deepswe_eval_lab.Base.Json
use deepswe_eval_lab.Base.Json.{Json, Fields, null, arr, nil, str, int, obj, field, end}
use deepswe_eval_lab.Eval.Scoring.Patches.{StagePatch, TrialPatchSet, Fingerprint, StageScore}
use deepswe_eval_lab.Eval.Scoring.Patches
use deepswe_eval_lab.Eval.Scoring.Pairs.{Scored, pair_of}
use deepswe_eval_lab.Eval.Scoring.Pairs
use deepswe_eval_lab.Eval.Scoring.Stats.{is_complete, pair_stats, mcnemar_exact_p}
use deepswe_eval_lab.Eval.Scoring.Stats.Partition.{pair_stats-partition}
use deepswe_eval_lab.Eval.Scoring.Stats.Table.{HasBinaryRewards, IsBinary, pair_stats-table}
use deepswe_eval_lab.Eval.Scoring.Stats.Sign.{IsPValue, mcnemar_exact_p-IsPValue}
use deepswe_eval_lab.Eval.Scoring.Summary.{summarise}
use deepswe_eval_lab.Eval.Scoring.Summary.ExitCode.{is_matched, summarise-exit_code}
use deepswe_eval_lab.Eval.Scoring.Summary.Coverage.{AddsUp, summarise-AddsUp}
use deepswe_eval_lab.Eval.Scoring.Work.{
  Host, Digests, UniqueWork, fingerprint, new_work, new_score, Collected, nothing, collect,
  collect_stages, digests_of,
}
use deepswe_eval_lab.Eval.Scoring.Work
use deepswe_eval_lab.Eval.Scoring.Work.Cover.{all_covered}
use deepswe_eval_lab.Eval.Scoring.Work.Unique.{IsUnique, collect-IsUnique_covered}
use deepswe_eval_lab.Eval.Scoring.Verify.{
  VerificationRequest, VerificationRecord, scan_cached_results, run_works,
}
use deepswe_eval_lab.Eval.Scoring.Job.{Job, Discovered, ScoreOptions, score_patch_job}
use deepswe_eval_lab.Eval.Scoring.Job
use deepswe_eval_lab.Eval.Scoring.Job.Complete.{IsComplete, score_patch_job-IsComplete}
use deepswe_eval_lab.Eval.Scoring.Verify.Results.{IsScored, run_works-IsScored}

abbrev stage : String → String → StagePatch
stage id sha = record {
  stage_id = id;
  parent_stage_id = some "initial";
  ordinal = 0;
  patch_path = id;
  patch_sha256 = sha;
  origin_round = none;
  changed = true;
  alias_of = none;
}

-- The final patch is that of the revision.
abbrev trial : TrialPatchSet
trial = record {
  trial_dir = "job/t1";
  trial_name = "t1";
  task_name = "task";
  task_dir = "tasks/task";
  task_checksum = "c";
  base_commit = "abc";
  outcome = "approved";
  degraded_reason = null;
  review_count = pos 1;
  revision_count = pos 1;
  no_change_revision = false;
  eligible = true;
  ineligible_reason = none;
  completed_protocol = true;
  stages = stage "initial" "p1" ∷ stage "revision-1" "p2" ∷ stage "final" "p2" ∷ [];
  eval_final_rewards = some (field "reward" (int (pos 1)) end);
  environment_config = obj end;
  verifier_config = obj end;
  timeout_multiplier = Rat.of_nat 1;
  verifier_timeout_multiplier = null;
  job_artifacts = arr nil;
}

-- A host that prints only the patch's digest.
abbrev text_or : Json → String
text_or (str s) = s
text_or _ = "config"

abbrev printed : Json → String
printed (obj fs) = text_or (Json.get "patchSha256" fs)
printed _ = ""

abbrev host : Host
host = record {
  sha256 = λ s. s;
  dumps = printed;
  show = λ j. "";
  show_nat = λ n. "n";
  directory = λ path. some (("test.sh", "run") ∷ []);
  read_text = λ path. "toml";
}

abbrev digests : Digests
digests = digests_of host trial (("test.sh", "run") ∷ [])

abbrev collected : Collected
collected = collect_stages host true [] digests trial trial.stages nothing

collect_run : collect host true [] (trial ∷ []) nothing ≡ ok collected
unfolding Work.collect
collect_run = refl

collect-IsUnique_covered_example :
    IsUnique host collected.works × (all_covered host true [] (trial ∷ []) collected.works ≡ true)
collect-IsUnique_covered_example =
    collect-IsUnique_covered host true [] (trial ∷ []) collected collect_run

abbrev work : UniqueWork
work =
    new_work trial (stage "initial" "p1") (fingerprint [] digests trial (stage "initial" "p1")) "p1"

-- A verifier that fails and may be tried again.
abbrev failing : VerificationRequest → VerificationRecord
failing request = record {
  status = "error";
  rewards = none;
  error_type = some "OSError";
  error_message = none;
  retryable = true;
  started_at = "";
  finished_at = "";
  duration_seconds = Rat.of_nat 1;
}

work_found : Dict.get "p1" (("p1", work) ∷ []) ≡ some work
unfolding Dict.get
work_found = refl

run_works-IsScored_example :
    (out : UniqueWork) × (Dict.get "p1"
        (run_works host failing "now" [] (scan_cached_results ([] ∷ []) []) (("p1", work) ∷ []))
      ≡ some out)
    × IsScored host failing "now" [] "p1" work out
run_works-IsScored_example =
    run_works-IsScored host failing "now" [] ([] ∷ []) (("p1", work) ∷ []) "p1" work work_found

abbrev score : StagePatch → Fields → StageScore
score s rewards = record (new_score s (fingerprint [] digests trial s) "p") {
  status = "success";
  rewards = some rewards;
}

abbrev passed : Fields
passed = field "reward" (int (pos 1)) end

abbrev failed : Fields
failed = field "reward" (int (pos 0)) end

-- One trial improves, the other one passes throughout.
abbrev scored : List Scored
scored =
    record {
      trial = trial;
      final = score (stage "final" "p2") passed;
      stages = [];
      initial = score (stage "initial" "p1") failed;
      revisions = [];
    }
    ∷ record {
      trial = trial;
      final = score (stage "final" "p2") passed;
      stages = [];
      initial = score (stage "initial" "p2") passed;
      revisions = [];
    }
    ∷ []

pair_stats-partition_example :
    ((pair_stats (map (pair_of false) scored)).improved
        + (pair_stats (map (pair_of false) scored)).harmed
        + (pair_stats (map (pair_of false) scored)).unchanged
      ≡ (pair_stats (map (pair_of false) scored)).complete)
    × ((pair_stats (map (pair_of false) scored)).complete ≤ length scored)
pair_stats-partition_example = pair_stats-partition false scored

scored-HasBinaryRewards : All (HasBinaryRewards false) scored
unfolding HasBinaryRewards IsBinary Pairs.final_score Patches.reward Patches.rewards_reward
    Patches.number_of Json.get
scored-HasBinaryRewards = ((inr (inl refl), inr (inr refl)), ((inr (inr refl), inr (inr refl)), tt))

pair_stats-table_example :
    (pair_stats (map (pair_of false) scored)).two_by_two.failed_both
      + (pair_stats (map (pair_of false) scored)).two_by_two.improved
      + (pair_stats (map (pair_of false) scored)).two_by_two.harmed
      + (pair_stats (map (pair_of false) scored)).two_by_two.passed_both
    ≡ (pair_stats (map (pair_of false) scored)).complete
pair_stats-table_example = pair_stats-table false scored scored-HasBinaryRewards

mcnemar_exact_p-IsPValue_example :
    IsPValue 4 (mcnemar_exact_p 3 1) × (mcnemar_exact_p 3 1 ≡ mcnemar_exact_p 1 3)
mcnemar_exact_p-IsPValue_example = mcnemar_exact_p-IsPValue 3 1

summarise-exit_code_example : (summarise false scored).code ≡ (
    if all is_complete (map (pair_of false) scored)
      && (false || all is_matched (map (pair_of false) scored))
    then 0
    else 1)
summarise-exit_code_example = summarise-exit_code false scored

summarise-AddsUp_example : AddsUp (summarise true scored) 2
summarise-AddsUp_example = summarise-AddsUp true scored

abbrev options : ScoreOptions
options = record { reuse_final_score = true; force = true }

abbrev job_works : Dict UniqueWork
job_works = run_works host failing "now" [] [] collected.works

-- A stage's score with the result of its patch.
abbrev attached : StagePatch → StageScore
attached s = Job.attach host job_works (
    new_score s (fingerprint [] digests trial s)
      (Work.fingerprint_id host (fingerprint [] digests trial s)))

abbrev job_scored : Scored
job_scored = record {
  trial = trial;
  final = attached (stage "final" "p2");
  stages =
      attached (stage "initial" "p1")
      ∷ attached (stage "revision-1" "p2")
      ∷ attached (stage "final" "p2")
      ∷ [];
  initial = attached (stage "initial" "p1");
  revisions =
      record {
        stage = stage "revision-1" "p2";
        child = attached (stage "revision-1" "p2");
        parent = attached (stage "initial" "p1");
      }
      ∷ record {
        stage = stage "final" "p2";
        child = attached (stage "final" "p2");
        parent = attached (stage "initial" "p1");
      }
      ∷ [];
}

abbrev job : Job
job = record {
  works = job_works;
  scores = Job.attach_scores host job_works collected.scores;
  pairs = map (pair_of true) (job_scored ∷ []);
  summary = summarise true (job_scored ∷ []);
}

job_run : score_patch_job host failing "now" options [] [] (ok trial ∷ []) ≡ ok job
unfolding Job.score_patch_job Job.score_eligible Job.layout_problems Job.trials_of Job.attach_scores
    Job.scored_trials Job.scored_of Job.stages_at Job.revisions_at Job.parent_at Job.score_at
    Work.collect Work.collect_stages Work.collect_stage Work.set_score Work.get_score Json.truthy
job_run = refl

score_patch_job-IsComplete_example : IsComplete (ok trial ∷ []) job
score_patch_job-IsComplete_example =
    score_patch_job-IsComplete host failing "now" options [] [] (ok trial ∷ []) job job_run
