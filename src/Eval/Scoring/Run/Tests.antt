-- ===== src/Eval/Scoring/Run/Tests.antt =====
-- A job on a trial directory, on a host without the directory of the task's tests.
use deepswe_eval_lab.Base.{◌≡◌, refl, true, false, none, [], ◌∷◌, ok, err}
use deepswe_eval_lab.Base.Json
use deepswe_eval_lab.Base.Rat
use deepswe_eval_lab.Eval.Discovery.Tests.{reader, dir, trial, discover_run}
use deepswe_eval_lab.Eval.Scoring.Work.{Host, ScoringError, tests_missing}
use deepswe_eval_lab.Eval.Scoring.Work
use deepswe_eval_lab.Eval.Scoring.Verify.{VerificationRequest, VerificationRecord}
use deepswe_eval_lab.Eval.Scoring.Job.{ScoreOptions, score_patch_job}
use deepswe_eval_lab.Eval.Scoring.Job
use deepswe_eval_lab.Eval.Scoring.Run.{Child, discover_all}
use deepswe_eval_lab.Eval.Scoring.Run
use deepswe_eval_lab.Eval.Scoring.Run.Total.{is_key_error, score_patch_job-not-key_error}

abbrev host : Host
host = record {
  sha256 = λ s. s;
  dumps = λ j. "json";
  show = λ j. "";
  show_nat = λ n. "n";
  directory = λ path. none;
  read_text = λ path. "toml";
}

abbrev failing : VerificationRequest → VerificationRecord
failing request = record {
  status = "error";
  rewards = none;
  error_type = none;
  error_message = none;
  retryable = false;
  started_at = "";
  finished_at = "";
  duration_seconds = Rat.of_nat 1;
}

abbrev options : ScoreOptions
options = record { reuse_final_score = false; force = false }

abbrev child : Child
child = record { name = "t1"; is_dir = true; has_result = true; dir = dir; results = [] }

discover_all_run : discover_all reader (child ∷ []) ≡ ok (ok trial ∷ [])
unfolding Run.discover_all
discover_all_run = rw discover_run refl

score_run :
    score_patch_job host failing "now" options [] [] (ok trial ∷ [])
    ≡ err (tests_missing "tasks/task/tests")
unfolding Job.score_patch_job Job.score_eligible Job.layout_problems Job.trials_of Work.collect
    Json.truthy
score_run = refl

score_patch_job-not-key_error_example : is_key_error (tests_missing "tasks/task/tests") ≡ false
score_patch_job-not-key_error_example =
    score_patch_job-not-key_error reader host failing "now" options [] [] (child ∷ [])
      (ok trial ∷ []) (tests_missing "tasks/task/tests") discover_all_run score_run
