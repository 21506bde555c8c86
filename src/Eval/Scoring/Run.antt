-- ===== src/Eval/Scoring/Run.antt =====
-- agent_eval/patch_scoring.py: a job from its directory, with the discovery of the trials' patches.
pub mod Scores
pub mod Scorable
pub mod Total
mod Tests
use deepswe_eval_lab.Base.{
  String, Bool, true, false, not, ◌&&◌, Option, none, some, List, [], ◌∷◌, ◌==◌, starts_with, map,
  keep, Result, ok, err, ◌>>=◌,
}
use deepswe_eval_lab.Base.Dict.{Dict}
use deepswe_eval_lab.Eval.Discovery.Layout.{Reason, TrialDir}
use deepswe_eval_lab.Eval.Discovery.Trial.{Reader, DiscoveryError, layout}
use deepswe_eval_lab.Eval.Discovery.Scan.{discover_trial_patches}
use deepswe_eval_lab.Eval.Scoring.Patches.{TrialPatchSet}
use deepswe_eval_lab.Eval.Scoring.Work.{Host, ScoringError}
use deepswe_eval_lab.Eval.Scoring.Verify.{VerificationRequest, VerificationRecord, ResultDir}
use deepswe_eval_lab.Eval.Scoring.Job.{Discovered, ScoreOptions, Job, score_patch_job}

-- An entry of the job directory, in the order of their names.
pub record Child : Type 0 where
  pub name : String
  pub is_dir : Bool
  pub has_result : Bool
  pub dir : TrialDir
  pub results : List ResultDir

abbrev pub is_trial : Child → Bool
is_trial child =
    child.is_dir
    && not (starts_with child.name ".")
    && not (child.name == "patch-scores")
    && child.has_result

-- `_select_trial_dirs`, with `fnmatch` as an argument.
unfoldable pub select_trial_dirs :
    (String → String → Bool) → Option String → List Child → List Child
select_trial_dirs fnmatch none children = keep is_trial children
select_trial_dirs fnmatch (some glob) children =
    keep (λ (c : Child). fnmatch c.name glob) (keep is_trial children)

-- One trial: a layout error is kept, and another exception ends the scan.
abbrev pub discovered_of : Result DiscoveryError TrialPatchSet → Result DiscoveryError Discovered
discovered_of (ok trial) = ok (ok trial)
discovered_of (err (layout reasons)) = ok (err reasons)
discovered_of (err e) = err e

unfoldable pub discover_all : Reader → List Child → Result DiscoveryError (List Discovered)
discover_all reader [] = ok []
discover_all reader (child ∷ rest) = do
  found ← discovered_of (discover_trial_patches reader child.dir)
  others ← discover_all reader rest
  ok (found ∷ others)

-- An exception of the scan, or of the scoring.
pub data JobError : Type 0 where
  discovery : DiscoveryError → JobError
  scoring : ScoringError → JobError

abbrev pub scoring_of {ℓ} : {A : Type ℓ} → Result ScoringError A → Result JobError A
scoring_of (ok a) = ok a
scoring_of (err e) = err (scoring e)

abbrev pub discovery_of {ℓ} : {A : Type ℓ} → Result DiscoveryError A → Result JobError A
discovery_of (ok a) = ok a
discovery_of (err e) = err (discovery e)

-- `score_patch_job`, from the entries of the job directory.
unfoldable pub run_job :
    Reader
    → Host
    → (VerificationRequest → VerificationRecord)
    → (String → String → Bool)
    → String
    → Option String
    → ScoreOptions
    → Dict String
    → List Child
    → Result JobError Job
run_job reader host verify_patch fnmatch now glob options identity children = do
  let selected = select_trial_dirs fnmatch glob children
  discovered ← discovery_of (discover_all reader selected)
  scoring_of (
      score_patch_job host verify_patch now options identity
        (map (λ (c : Child). c.results) selected) discovered)
