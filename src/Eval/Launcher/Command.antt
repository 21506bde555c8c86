-- ===== src/Eval/Launcher/Command.antt =====
-- agent_eval/pier_command.py: a plan as a command line of `pier run`.
use deepswe_eval_lab.Base.{String, ◌<>◌, none, some, List, [], ◌∷◌, ◌++◌}
use deepswe_eval_lab.Base.Int.{ℤ}
use deepswe_eval_lab.Base.Rat.{Rat}
use deepswe_eval_lab.Base.Json.{Fields}
use deepswe_eval_lab.Eval.Models.{ExecutionPlan, to_dict}

-- How Python writes a JSON object (compact, its keys sorted), an int and a float.
pub record Printer : Type 0 where
  pub json : Fields → String
  pub int : ℤ → String
  pub float : Rat → String

unfoldable pub model_label : ExecutionPlan → String
model_label plan = elim plan.reviewer [
  | none ↦ plan.modifier.adapter <> "/" <> plan.modifier.model
  | some r ↦
      "collab/" <> plan.modifier.name <> "-" <> plan.modifier.model <> "+" <> r.name <> "-"
      <> r.model
]

-- The arguments of `build_pier_command` but the plan.
pub record CommandArgs : Type 0 where
  pub pier_bin : String
  pub tasks_dir : String
  pub task_names : List String
  pub jobs_dir : String
  pub job_name : String
  pub n_attempts : ℤ
  pub n_concurrent : ℤ
  pub run_manifest_path : String
  pub runtime_target : String
  pub extra_args : List String

unfoldable pub include_tasks : List String → List String
include_tasks [] = []
include_tasks (task ∷ tasks) = "--include-task-name" ∷ task ∷ include_tasks tasks

unfoldable pub plan_args : Printer → CommandArgs → ExecutionPlan → List String
plan_args print args plan =
    "--agent-import-path"
    ∷ "wip.agents.deep_swe_agent.pier_agent:DeepSweAgent"
    ∷ "--agent-kwarg"
    ∷ ("execution_plan_json=" <> print.json (to_dict plan))
    ∷ "--agent-kwarg"
    ∷ ("run_manifest_path=" <> args.run_manifest_path)
    ∷ "--environment-import-path"
    ∷ "wip.environments.agent_runtime:SharedAgentRuntimeDockerEnvironment"
    ∷ "--environment-kwarg"
    ∷ ("runtime_image=" <> plan.runtime_image)
    ∷ "--environment-kwarg"
    ∷ ("runtime_target=" <> args.runtime_target)
    ∷ "--model"
    ∷ model_label plan
    ∷ "--env"
    ∷ "docker"
    ∷ "--enable-verification"
    ∷ "--no-force-build"
    ∷ "--delete"
    ∷ "--n-attempts"
    ∷ print.int args.n_attempts
    ∷ "--n-concurrent"
    ∷ print.int args.n_concurrent
    ∷ "--agent-timeout-multiplier"
    ∷ print.float plan.budget.agent_timeout_multiplier
    ∷ []

unfoldable pub job_args : CommandArgs → List String
job_args args = "--job-name" ∷ args.job_name ∷ "--jobs-dir" ∷ args.jobs_dir ∷ []

unfoldable pub build_pier_command : Printer → CommandArgs → ExecutionPlan → List String
build_pier_command print args plan =
    (args.pier_bin ∷ "run" ∷ "--path" ∷ args.tasks_dir ∷ [])
    ++ (include_tasks args.task_names
        ++ (plan_args print args plan ++ (job_args args ++ args.extra_args)))
