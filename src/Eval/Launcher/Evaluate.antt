-- ===== src/Eval/Launcher/Evaluate.antt =====
-- agent_eval/cli.py: `_evaluate`, from the parsed arguments to the command that is run.
pub mod Launched
pub mod Secrets
mod Tests
use deepswe_eval_lab.Base.{
  ℕ, String, ◌<>◌, Bool, true, false, not, ◌&&◌, ◌||◌, Option, none, some, List, [], ◌∷◌, ◌==◌,
  if◌then◌else◌, map, any, Result, ok, err, ◌>>=◌, ◌>>◌, reject,
}
use deepswe_eval_lab.Base.Int.{ℤ, pos, ltb_ℤ}
use deepswe_eval_lab.Base.Rat.{Rat}
use deepswe_eval_lab.Base.Dict.{Dict}
use deepswe_eval_lab.Base.Json.{Json, Fields, end}
use deepswe_eval_lab.Eval.Models.{AgentProfile, ExecutionPlan, given, to_dict, profiles}
use deepswe_eval_lab.Eval.Profiles.{Source, ProfileError, load}
use deepswe_eval_lab.Eval.Planning.{PlanRequest, PlanError, present, build_execution_plan}
use deepswe_eval_lab.Eval.Launcher.Tasks.{
  TaskSelectionError, from_keys, resolve_tasks, common_agent_timeout,
}
use deepswe_eval_lab.Eval.Launcher.JobName.{
  JobNameError, task_list_label, validate_explicit_job_name, default_job_name,
}
use deepswe_eval_lab.Eval.Launcher.Redact.{redact_args}
use deepswe_eval_lab.Eval.Launcher.Command.{Printer, CommandArgs, build_pier_command}
use deepswe_eval_lab.Eval.Launcher.Network.{network_policy, uses_adapter}

-- The parsed arguments of `eval`, but `pier_args`.
pub record EvalArgs : Type 0 where
  pub tasks_dir : String
  pub task : List String
  pub task_list : List String
  pub profiles : String
  pub runtime_image : Option String
  pub runtime_platform : Option String
  pub agent : String
  pub modifier : Option String
  pub reviewer : Option String
  pub model : Option String
  pub effort : Option String
  pub modifier_model : Option String
  pub modifier_effort : Option String
  pub reviewer_model : Option String
  pub reviewer_effort : Option String
  pub allow_unverified : Bool
  pub agent_timeout_multiplier : Rat
  pub cleanup_reserve_seconds : Rat
  pub max_reviews : Option ℤ
  pub max_agent_attempts : ℤ
  pub reviewer_timeout_seconds : Option Rat
  pub revision_timeout_seconds : Option Rat
  pub event_silence_timeout_seconds : Rat
  pub min_turn_seconds : Rat
  pub strict : Bool
  pub keep_workspaces : Bool
  pub n_attempts : ℤ
  pub n_concurrent : ℤ
  pub dry_run : Bool
  pub rebuild_runtime : Bool
  pub rebuild : Bool
  pub job_name : Option String
  pub jobs_dir : String
  pub pier_bin : String
  pub runtime_target : String

pub record RuntimeSpec : Type 0 where
  pub manifest_digest : String
  pub image : String

-- What the launcher finds outside of it: the files, the image runtime, the clock, git and pier.
pub record World : Type 0 where
  pub resolve_path : String → String
  pub lines_of : String → Option (List String)
  pub task_toml : String → String → Option Fields
  pub profile_source : String → Source
  pub runtime_spec : Option String → Option String → Result String RuntimeSpec
  pub inspect : RuntimeSpec → Result String Json
  pub prepare : Bool → RuntimeSpec → Result String Json
  pub kimi_auth : Result String (Unit {0})
  pub is_alnum : ℕ → Bool
  pub show_nat : ℕ → String
  pub hexdigest : String → String
  pub timestamp : String
  pub stem : String → String
  pub print : Printer
  pub generated_at : String
  pub git : Json
  pub pier_version : Option String

pub data EvalError : Type 0 where
  task_error : TaskSelectionError → EvalError
  profile_error : ProfileError → EvalError
  plan_error : PlanError → EvalError
  name_error : JobNameError → EvalError
  runtime_error credential_error : String → EvalError
  no_max_reviews counts_not_positive : EvalError

-- A call whose error passes through.
unfoldable pub raising : {E A : Type 0} → (E → EvalError) → Result E A → Result EvalError A
raising f (ok a) = ok a
raising f (err e) = err (f e)

abbrev pub fields_of : Option Fields → Fields
fields_of none = end
fields_of (some fs) = fs

abbrev pub request_of : EvalArgs → Rat → RuntimeSpec → PlanRequest
request_of args timeout spec = record {
  agent = args.agent;
  modifier = args.modifier;
  reviewer = args.reviewer;
  model = args.model;
  effort = args.effort;
  modifier_model = args.modifier_model;
  modifier_effort = args.modifier_effort;
  reviewer_model = args.reviewer_model;
  reviewer_effort = args.reviewer_effort;
  allow_unverified = args.allow_unverified;
  task_timeout_seconds = timeout;
  agent_timeout_multiplier = args.agent_timeout_multiplier;
  cleanup_reserve_seconds = args.cleanup_reserve_seconds;
  runtime_manifest_digest = spec.manifest_digest;
  runtime_image = spec.image;
  max_reviews = given args.max_reviews (pos 3);
  max_agent_attempts = args.max_agent_attempts;
  reviewer_timeout_seconds = args.reviewer_timeout_seconds;
  revision_timeout_seconds = args.revision_timeout_seconds;
  event_silence_timeout_seconds = args.event_silence_timeout_seconds;
  min_turn_seconds = args.min_turn_seconds;
  strict = args.strict;
  keep_workspaces = args.keep_workspaces;
}

-- `_require_plan_credentials`
unfoldable pub require_plan_credentials : World → ExecutionPlan → Result String (Unit {0})
require_plan_credentials w plan = if uses_adapter "kimi" (profiles plan) then w.kimi_auth else ok tt

abbrev reviewer_name : Option AgentProfile → Option String
reviewer_name none = none
reviewer_name (some p) = some p.name

-- A label is always found, by `task_list_label_total`.
abbrev label_of : World → String → String
label_of w path = elim (task_list_label w.is_alnum (w.stem path)) [ none ↦ "" | some label ↦ label ]

unfoldable pub generated_name : World → EvalArgs → List String → ExecutionPlan → String
generated_name w args tasks plan =
    default_job_name w.is_alnum w.show_nat w.hexdigest w.timestamp args.agent tasks
      (from_keys [] (map (label_of w) (map w.resolve_path args.task_list)))
      (some plan.modifier.name) (reviewer_name plan.reviewer)

unfoldable pub name_of :
    World → EvalArgs → List String → ExecutionPlan → Option String → Result JobNameError String
name_of w args tasks plan none = ok (generated_name w args tasks plan)
name_of w args tasks plan (some name) = validate_explicit_job_name w.is_alnum name >> ok name

abbrev pub has_task : World → String → String → Bool
has_task w dir name = present (w.task_toml dir name)

abbrev pub toml_of : World → String → String → Fields
toml_of w dir name = fields_of (w.task_toml dir name)

pub record Prepared : Type 0 where
  pub tasks : List String
  pub timeout : Rat
  pub spec : RuntimeSpec
  pub plan : ExecutionPlan
  pub status : Json
  pub job_name : String

abbrev pub selected : World → EvalArgs → Result EvalError (List String)
selected w args =
    let dir = w.resolve_path args.tasks_dir in
    raising task_error
      (resolve_tasks w.lines_of (has_task w dir) args.task (map w.resolve_path args.task_list))

abbrev pub planned : World → EvalArgs → List String → Result EvalError Prepared
planned w args tasks = do
  timeout ←
      raising task_error (common_agent_timeout (toml_of w (w.resolve_path args.tasks_dir)) tasks)
  registry ← raising profile_error (load (w.profile_source (w.resolve_path args.profiles)))
  spec ← raising runtime_error (w.runtime_spec args.runtime_image args.runtime_platform)
  reject (not (args.agent == "collab") && present args.max_reviews) no_max_reviews
  plan ← raising plan_error (build_execution_plan (request_of args timeout spec) registry)
  reject (ltb_ℤ args.n_attempts (pos 1) || ltb_ℤ args.n_concurrent (pos 1)) counts_not_positive
  if args.dry_run then ok tt else raising credential_error (require_plan_credentials w plan)
  status ← raising runtime_error (
      if args.dry_run
      then w.inspect spec
      else w.prepare (args.rebuild_runtime || args.rebuild) spec)
  job_name ← raising name_error (name_of w args tasks plan args.job_name)
  ok (record {
    tasks = tasks;
    timeout = timeout;
    spec = spec;
    plan = plan;
    status = status;
    job_name = job_name;
  })

-- `_write_run_manifest`
pub record RunManifest : Type 0 where
  pub generated_at : String
  pub argv : List String
  pub git : Json
  pub tasks : List String
  pub execution_plan : Fields
  pub runtime_status : Json
  pub pier_version : Option String
  pub network_policy : List String
  pub pier_command : List String

-- What is printed.
pub record Output : Type 0 where
  pub job_name : String
  pub tasks : List String
  pub execution_plan : Fields
  pub runtime_status : Json
  pub run_manifest : String
  pub pier_command : List String

-- The manifest that is written and the command that is run.
pub record Run : Type 0 where
  pub manifest : RunManifest
  pub command : List String

pub record Launch : Type 0 where
  pub output : Output
  pub run : Option Run

-- `pier_args[1:]` where the first is "--".
unfoldable pub without_dashes : List String → List String
without_dashes [] = []
without_dashes (a ∷ rest) = if a == "--" then rest else a ∷ rest

abbrev pub manifest_path : World → EvalArgs → String → String
manifest_path w args name =
    w.resolve_path args.jobs_dir <> "/.agent-eval-manifests/" <> name <> ".json"

abbrev pub command_args : World → EvalArgs → Prepared → List String → CommandArgs
command_args w args p extra_args = record {
  pier_bin = args.pier_bin;
  tasks_dir = w.resolve_path args.tasks_dir;
  task_names = p.tasks;
  jobs_dir = w.resolve_path args.jobs_dir;
  job_name = p.job_name;
  n_attempts = args.n_attempts;
  n_concurrent = args.n_concurrent;
  run_manifest_path = manifest_path w args p.job_name;
  runtime_target = args.runtime_target;
  extra_args = extra_args;
}

unfoldable pub command_of : World → EvalArgs → List String → Prepared → List String
command_of w args pier_args p =
    build_pier_command w.print (command_args w args p (without_dashes pier_args)) p.plan

abbrev pub manifest_of : World → EvalArgs → List String → List String → Prepared → RunManifest
manifest_of w args pier_args argv p = record {
  generated_at = w.generated_at;
  argv = redact_args argv;
  git = w.git;
  tasks = p.tasks;
  execution_plan = to_dict p.plan;
  runtime_status = p.status;
  pier_version = w.pier_version;
  network_policy = network_policy p.plan;
  pier_command = redact_args (command_of w args pier_args p);
}

abbrev pub launch_of : World → EvalArgs → List String → List String → Prepared → Launch
launch_of w args pier_args argv p = record {
  output = record {
    job_name = p.job_name;
    tasks = p.tasks;
    execution_plan = to_dict p.plan;
    runtime_status = p.status;
    run_manifest = manifest_path w args p.job_name;
    pier_command = redact_args (command_of w args pier_args p);
  };
  run =
      if args.dry_run
      then none
      else some (record {
        manifest = manifest_of w args pier_args argv p;
        command = command_of w args pier_args p;
      });
}

unfoldable pub evaluate : World → EvalArgs → List String → List String → Result EvalError Launch
evaluate w args pier_args argv = do
  tasks ← selected w args
  p ← planned w args tasks
  ok (launch_of w args pier_args argv p)
