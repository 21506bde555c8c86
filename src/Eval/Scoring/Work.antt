-- ===== src/Eval/Scoring/Work.antt =====
-- agent_eval/patch_scoring.py: the fingerprints of the patches, and the work of a job without duplicates.
pub mod Cover
pub mod Unique
use Prim.Native.String.{slice}
use deepswe_eval_lab.Base.{
  ℕ, String, ◌<>◌, Bool, true, false, not, ◌&&◌, ◌||◌, Option, none, some, List, [], ◌∷◌, ◌==◌,
  if◌then◌else◌, map, any, Result, ok, err, ◌>>=◌,
}
use deepswe_eval_lab.Base.Dict
use deepswe_eval_lab.Base.Dict.{Dict}
use deepswe_eval_lab.Base.Rat.{Rat}
use deepswe_eval_lab.Base.Json.{Json, Fields, null, float, str, obj, end, field}
use deepswe_eval_lab.Eval.Models.{given}
use deepswe_eval_lab.Eval.Discovery.Layout.{Reason}
use deepswe_eval_lab.Eval.Scoring.Patches.{StagePatch, TrialPatchSet, Fingerprint, StageScore}

-- What the library and the file system give: `hexdigest`, `json.dumps` with sorted keys, `str` of a
-- value and of a number, the files below a directory with their contents in the order of their paths
-- (`none` where there is no such directory), and the text of a file.
pub record Host : Type 0 where
  pub sha256 : String → String
  pub dumps : Json → String
  pub show : Json → String
  pub show_nat : ℕ → String
  pub directory : String → Option (Dict String)
  pub read_text : String → String

abbrev join_lines : List String → String
join_lines [] = ""
join_lines (s ∷ []) = s
join_lines (s ∷ t ∷ rest) = s <> "\n" <> join_lines (t ∷ rest)

unfoldable pub build_context_digest : Host → Dict String → String
build_context_digest host files =
    host.sha256 (join_lines (map (λ (f : String × String). f.0 <> ":" <> host.sha256 f.1) files))

unfoldable pub task_config_digest : Host → String → String
task_config_digest host task_dir = host.sha256 (host.read_text (task_dir <> "/task.toml"))

unfoldable pub verifier_config_digest : Host → TrialPatchSet → String
verifier_config_digest host trial = host.sha256 (
    host.dumps (
      obj (
        field "environment" trial.environment_config (
          field "verifier" trial.verifier_config (
            field "timeoutMultiplier" (float trial.timeout_multiplier)
              (field "verifierTimeoutMultiplier" trial.verifier_timeout_multiplier end))))))

-- The digests of a trial's verifier, in the arguments of `_fingerprint`.
pub record Digests : Type 0 where
  pub context : String
  pub task : String
  pub verifier : String

unfoldable pub fingerprint : Dict String → Digests → TrialPatchSet → StagePatch → Fingerprint
fingerprint identity digests trial stage = record {
  schema_version = "1";
  task_checksum = trial.task_checksum;
  task_config_digest = digests.task;
  base_commit = trial.base_commit;
  patch_sha256 = stage.patch_sha256;
  pier_version = given (Dict.get "pierVersion" identity) "";
  verifier_config_digest = digests.verifier;
  build_context_digest = digests.context;
  adapter_schema_version = "1";
}

unfoldable pub fingerprint_items : Fingerprint → Dict String
fingerprint_items fp =
    ("schemaVersion", fp.schema_version)
    ∷ ("taskChecksum", fp.task_checksum)
    ∷ ("taskConfigDigest", fp.task_config_digest)
    ∷ ("baseCommit", fp.base_commit)
    ∷ ("patchSha256", fp.patch_sha256)
    ∷ ("pierVersion", fp.pier_version)
    ∷ ("verifierConfigDigest", fp.verifier_config_digest)
    ∷ ("buildContextDigest", fp.build_context_digest)
    ∷ ("adapterSchemaVersion", fp.adapter_schema_version)
    ∷ []

unfoldable pub text_fields : Dict String → Fields
text_fields [] = end
text_fields ((k, v) ∷ rest) = field k (str v) (text_fields rest)

unfoldable pub fingerprint_id : Host → Fingerprint → String
fingerprint_id host fp =
    slice (host.sha256 (host.dumps (obj (text_fields (fingerprint_items fp))))) 0 16

pub record UniqueWork : Type 0 where
  pub fingerprint : Fingerprint
  pub fingerprint_id : String
  pub trial : TrialPatchSet
  pub stage : StagePatch
  pub result_dir : String
  pub result : Option Fields
  pub cached : Bool

-- `skip_direct`: the final score is reused, and no other stage has the patch of the final one.
unfoldable pub skip_direct : Bool → TrialPatchSet → StagePatch → Bool
skip_direct reuse trial stage =
    reuse
    && stage.stage_id == "final"
    && not (
        any
          (λ (s : StagePatch). not (s.stage_id == "final") && s.patch_sha256 == stage.patch_sha256)
          trial.stages)

-- The key of `stage_scores`, and its entries in the order of the dictionary.
abbrev pub StageKey : Type 0
StageKey = String × String

abbrev pub Scores : Type 0
Scores = List (StageKey × StageScore)

unfoldable pub set_score : StageKey → StageScore → Scores → Scores
set_score key score [] = (key, score) ∷ []
set_score (t, s) score (((u, r), old) ∷ rest) =
    let tail = set_score (t, s) score rest in
    if t == u && s == r then ((u, r), score) ∷ rest else ((u, r), old) ∷ tail

unfoldable pub get_score : StageKey → Scores → Option StageScore
get_score key [] = none
get_score (t, s) (((u, r), score) ∷ rest) =
    let tail = get_score (t, s) rest in if t == u && s == r then some score else tail

-- `stage_scores` and `unique_work`.
pub record Collected : Type 0 where
  pub scores : Scores
  pub works : Dict UniqueWork

abbrev pub new_score : StagePatch → Fingerprint → String → StageScore
new_score stage fp id = record {
  stage = stage;
  fingerprint = fp;
  fingerprint_id = id;
  score_source = "direct";
  status = "missing";
  rewards = none;
  scored_in_trial = none;
  cached = false;
}

abbrev pub new_work : TrialPatchSet → StagePatch → Fingerprint → String → UniqueWork
new_work trial stage fp id = record {
  fingerprint = fp;
  fingerprint_id = id;
  trial = trial;
  stage = stage;
  result_dir = trial.trial_dir <> "/patch-scores/results/" <> id;
  result = none;
  cached = false;
}

-- Work for a fingerprint that has none.
unfoldable pub add_work : Bool → String → UniqueWork → Dict UniqueWork → Dict UniqueWork
add_work skip id work works =
    if not (Dict.has id works) && not skip then Dict.insert id work works else works

unfoldable pub collect_stage :
    Host → Bool → Dict String → Digests → TrialPatchSet → StagePatch → Collected → Collected
collect_stage host reuse identity digests trial stage c =
    let fp = fingerprint identity digests trial stage in
    let id = fingerprint_id host fp in
    record {
      scores = set_score (trial.trial_name, stage.stage_id) (new_score stage fp id) c.scores;
      works = add_work (skip_direct reuse trial stage) id (new_work trial stage fp id) c.works;
    }

unfoldable pub collect_stages :
    Host → Bool → Dict String → Digests → TrialPatchSet → List StagePatch → Collected → Collected
collect_stages host reuse identity digests trial [] c = c
collect_stages host reuse identity digests trial (stage ∷ rest) c =
    collect_stages host reuse identity digests trial rest
      (collect_stage host reuse identity digests trial stage c)

-- The digests of a trial; the caches of the loop hold the same values, since no file changes meanwhile
-- and no two trials have one name.
unfoldable pub digests_of : Host → TrialPatchSet → Dict String → Digests
digests_of host trial files = record {
  context = build_context_digest host files;
  task = task_config_digest host trial.task_dir;
  verifier = verifier_config_digest host trial;
}

-- A `ScoringError` by what it reports; `key_error` is the KeyError of a score that is not there.
pub data ScoringError : Type 0 where
  no_trials : ScoringError
  layout_errors : List (List Reason) → ScoringError
  job_artifacts : List String → ScoringError
  tests_missing : String → ScoringError
  key_error : String → String → ScoringError

unfoldable pub collect :
    Host → Bool → Dict String → List TrialPatchSet → Collected → Result ScoringError Collected
collect host reuse identity [] c = ok c
collect host reuse identity (trial ∷ rest) c = elim (host.directory (trial.task_dir <> "/tests")) [
  | none ↦ err (tests_missing (trial.task_dir <> "/tests"))
  | some files ↦
      collect host reuse identity rest
        (collect_stages host reuse identity (digests_of host trial files) trial trial.stages c)
]

abbrev pub nothing : Collected
nothing = record { scores = []; works = [] }
