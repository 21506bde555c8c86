-- ===== src/Eval/Launcher/Evaluate/Tests.antt =====
-- A launch at concrete arguments.
use deepswe_eval_lab.Base.{
  ◌≡◌, refl, String, ◌<>◌, true, false, ◌||◌, ◌&&◌, ◌==◌, Option, none, some, List, [], ◌∷◌, leb,
  ok, err, if◌then◌else◌, mem, any,
}
use deepswe_eval_lab.Base.Int.{pos}
use deepswe_eval_lab.Base.Rat
use deepswe_eval_lab.Base.Text
use deepswe_eval_lab.Base.Dict
use deepswe_eval_lab.Base.Json.{Json, Fields, null, int, str, obj, field, end}
use deepswe_eval_lab.Base.Json
use deepswe_eval_lab.Eval.Models.{AgentProfile, ExecutionPlan, profiles}
use deepswe_eval_lab.Eval.Models
use deepswe_eval_lab.Eval.Profiles.{Source, loaded, missing}
use deepswe_eval_lab.Eval.Profiles
use deepswe_eval_lab.Eval.Planning
use deepswe_eval_lab.Eval.Launcher.Tasks
use deepswe_eval_lab.Eval.Launcher.JobName
use deepswe_eval_lab.Eval.Launcher.Redact.{secret_env_flags}
use deepswe_eval_lab.Eval.Launcher.Redact
use deepswe_eval_lab.Eval.Launcher.Redact.Secrets.{DifferInSecrets, done, assignment, flag, plain}
use deepswe_eval_lab.Eval.Launcher.Network.{network_policy}
use deepswe_eval_lab.Eval.Launcher.Network
use deepswe_eval_lab.Eval.Launcher.Network.Hosts.{is_host_of, mem-network_policy}
use deepswe_eval_lab.Eval.Launcher.Evaluate.{
  World, EvalArgs, RuntimeSpec, Prepared, Launch, request_of, without_dashes, evaluate,
}
use deepswe_eval_lab.Eval.Launcher.Evaluate
use deepswe_eval_lab.Eval.Launcher.Evaluate.Secrets.{shown, evaluate-DifferInSecrets}

abbrev writer_entry : Fields
writer_entry = field "status" (str "verified") (
    field "adapter" (str "claude") (
      field "permissions" (str "bypass") (
        field "effort" (str "high")
          (field "model" (str "sonnet") (field "auth" (str "token") end)))))

abbrev profile_source : String → Source
profile_source path = loaded (
    obj (
      field "schema_version" (int (pos 1))
        (field "profiles" (obj (field "writer" (obj writer_entry) end)) end)))

abbrev task_toml : String → String → Option Fields
task_toml dir name =
    if name == "a"
    then some (field "agent" (obj (field "timeout_sec" (int (pos 3600)) end)) end)
    else none

abbrev spec : RuntimeSpec
spec = record { manifest_digest = "sha256:a"; image = "runtime:1" }

abbrev world : World
world = record {
  resolve_path = λ p. "/repo/" <> p;
  lines_of = λ p. none;
  task_toml = task_toml;
  profile_source = profile_source;
  runtime_spec = λ image platform. ok spec;
  inspect = λ s. ok null;
  prepare = λ again s. ok null;
  kimi_auth = err "no home";
  is_alnum = λ c. leb b'0' c && leb c b'9' || leb b'A' c && leb c b'Z' || leb b'a' c && leb c b'z';
  show_nat = λ n. "many";
  hexdigest = λ base. "0123456789abcdef";
  timestamp = "20260101-000000";
  stem = λ p. p;
  print = record { json = λ fs. "plan"; int = λ n. "1"; float = λ x. "2.0" };
  generated_at = "2026-01-01";
  git = null;
  pier_version = some "1.0";
}

abbrev args : EvalArgs
args = record {
  tasks_dir = "tasks";
  task = "a" ∷ [];
  task_list = [];
  profiles = "profiles.json";
  runtime_image = none;
  runtime_platform = none;
  agent = "writer";
  modifier = none;
  reviewer = none;
  model = none;
  effort = none;
  modifier_model = none;
  modifier_effort = none;
  reviewer_model = none;
  reviewer_effort = none;
  allow_unverified = false;
  agent_timeout_multiplier = Rat.of_nat 2;
  cleanup_reserve_seconds = Rat.of_nat 300;
  max_reviews = none;
  max_agent_attempts = pos 3;
  reviewer_timeout_seconds = none;
  revision_timeout_seconds = none;
  event_silence_timeout_seconds = Rat.of_nat 900;
  min_turn_seconds = Rat.of_nat 60;
  strict = true;
  keep_workspaces = false;
  n_attempts = pos 1;
  n_concurrent = pos 1;
  dry_run = false;
  rebuild_runtime = false;
  rebuild = false;
  job_name = none;
  jobs_dir = "jobs";
  pier_bin = "pier";
  runtime_target = "/opt/runtime";
}

abbrev writer : AgentProfile
writer = record {
  name = "writer";
  status = "verified";
  adapter = "claude";
  model = "sonnet";
  effort = some "high";
  auth = "token";
  permissions = "bypass";
  model_config = none;
  benchmark_mode = true;
}

abbrev plan : ExecutionPlan
plan = Planning.plan_of (request_of args (Rat.of_nat 3600) spec) (record {
  topology = Models.Topology.single;
  workflow = Models.Workflow.single;
  modifier = writer;
  reviewer = none;
  max_reviews = pos 0;
})

abbrev prepared : Prepared
prepared = record {
  tasks = "a" ∷ [];
  timeout = Rat.of_nat 3600;
  spec = spec;
  plan = plan;
  status = null;
  job_name = "writer-a-20260101-000000";
}

abbrev pier_args : String → List String
pier_args value = "--" ∷ "--ae" ∷ value ∷ "--quiet" ∷ []

two_args :
    DifferInSecrets false (without_dashes (pier_args "KEY=s")) (without_dashes (pier_args "KEY=t"))
unfolding without_dashes Redact.partition
two_args = flag "--ae" refl (assignment "KEY" "s" "t" refl (plain "--quiet" refl (done false)))

evaluate-DifferInSecrets_example :
    shown (evaluate world args (pier_args "KEY=s") [])
    ≡ shown (evaluate world args (pier_args "KEY=t") [])
evaluate-DifferInSecrets_example =
    evaluate-DifferInSecrets world args (pier_args "KEY=s") (pier_args "KEY=t") [] [] refl two_args
      (done false)

mem-network_policy_example :
    mem "chatgpt.com" (network_policy plan) ≡ any (is_host_of "chatgpt.com") (profiles plan)
mem-network_policy_example = mem-network_policy "chatgpt.com" plan
