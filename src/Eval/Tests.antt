-- ===== src/Eval/Tests.antt =====
-- Runs of the launcher's functions at concrete inputs.
use deepswe_eval_lab.Base.{true, false, none, some, [], ◌∷◌}
use deepswe_eval_lab.Base.Dict
use deepswe_eval_lab.Base.Dict.{Dict}
use deepswe_eval_lab.Base.Int.{pos}
use deepswe_eval_lab.Base.Rat
use deepswe_eval_lab.Base.Text
use deepswe_eval_lab.Base.Json
use deepswe_eval_lab.Base.Json.{Json, Fields, str, int, obj, field, end}
use deepswe_eval_lab.Eval.Models.{AgentProfile, Topology, ExecutionPlan}
use deepswe_eval_lab.Eval.Models
use deepswe_eval_lab.Eval.Profiles.{Source, loaded}
use deepswe_eval_lab.Eval.Profiles
use deepswe_eval_lab.Eval.Planning.{PlanRequest, Roles}
use deepswe_eval_lab.Eval.Planning

abbrev writer_entry : Fields
writer_entry = field "status" (str "verified") (
    field "adapter" (str "claude") (
      field "permissions" (str "bypass") (
        field "effort" (str "high")
          (field "model" (str "sonnet") (field "auth" (str "token") end)))))

abbrev profile_file : Source
profile_file = loaded (
    obj (
      field "schema_version" (int (pos 1))
        (field "profiles" (obj (field "writer" (obj writer_entry) end)) end)))

abbrev writer : AgentProfile
writer = record {
  name = "writer";
  status = "verified";
  adapter = "claude";
  model = "sonnet";
  effort = some "high";
  auth = "token";
  permissions = "bypass";
  model_config = none;
  benchmark_mode = true;
}

abbrev registry : Dict AgentProfile
registry = ("writer", writer) ∷ []

-- The writer reviews itself.
abbrev request : PlanRequest
request = record {
  agent = "collab";
  modifier = some "writer";
  reviewer = some "writer";
  model = none;
  effort = none;
  modifier_model = some "opus";
  modifier_effort = none;
  reviewer_model = none;
  reviewer_effort = some "low";
  allow_unverified = false;
  task_timeout_seconds = Rat.of_nat 3600;
  agent_timeout_multiplier = Rat.of_nat 2;
  cleanup_reserve_seconds = Rat.of_nat 300;
  runtime_manifest_digest = "sha256:a";
  runtime_image = "runtime:1";
  max_reviews = pos 2;
  max_agent_attempts = pos 3;
  reviewer_timeout_seconds = some (Rat.of_nat 600);
  revision_timeout_seconds = none;
  event_silence_timeout_seconds = Rat.of_nat 900;
  min_turn_seconds = Rat.of_nat 60;
  strict = true;
  keep_workspaces = false;
}

abbrev roles : Roles
roles = record {
  topology = Models.Topology.collab;
  workflow = Models.Workflow.review_loop;
  modifier = record writer { model = "opus" };
  reviewer = some (record writer { effort = some "low" });
  max_reviews = pos 2;
}
