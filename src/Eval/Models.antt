-- ===== src/Eval/Models.antt =====
-- agent_eval/models.py: the contracts that the launcher and the agent share.
use deepswe_eval_lab.Base.{ℕ, String, Bool, Option, none, some, List, [], ◌∷◌}
use deepswe_eval_lab.Base.Int.{ℤ, pos}
use deepswe_eval_lab.Base.Json.{
  Json, null, bool, int, float, str, arr, obj, Items, nil, cons, Fields, end, field,
}
use deepswe_eval_lab.Base.Rat.{Rat}

pub record KimiModelConfig : Type 0 where
  pub provider : String
  pub provider_type : String
  pub base_url : String
  pub upstream_model : String
  pub max_context_size : ℤ
  pub capabilities : List String
  pub support_efforts : List String
  pub default_effort : String

pub record AgentProfile : Type 0 where
  pub name : String
  pub status : String
  pub adapter : String
  pub model : String
  pub effort : Option String
  pub auth : String
  pub permissions : String
  pub model_config : Option KimiModelConfig
  pub benchmark_mode : Bool

-- `value if value is not None else default`
abbrev pub given {ℓ} : {A : Type ℓ} → Option A → A → A
given none d = d
given (some a) d = a

abbrev pub given_option {ℓ} : {A : Type ℓ} → Option A → Option A → Option A
given_option none d = d
given_option (some a) d = some a

unfoldable pub with_overrides : AgentProfile → Option String → Option String → AgentProfile
with_overrides p model effort = record p {
  model = given model p.model;
  effort = given_option effort p.effort;
}

pub record Budget : Type 0 where
  pub task_timeout_seconds : Rat
  pub agent_timeout_multiplier : Rat
  pub hard_timeout_seconds : Rat
  pub cleanup_reserve_seconds : Rat
  pub soft_deadline_seconds : Rat

pub data Topology : Type 0 where
  single collab : Topology

pub data Workflow : Type 0 where
  single review_loop : Workflow

-- `engine` is always "direct".
pub record ExecutionPlan : Type 0 where
  pub schema_version : ℕ
  pub topology : Topology
  pub workflow : Workflow
  pub modifier : AgentProfile
  pub reviewer : Option AgentProfile
  pub budget : Budget
  pub runtime_manifest_digest : String
  pub runtime_image : String
  pub max_reviews : ℤ
  pub max_agent_attempts : ℤ
  pub reviewer_timeout_seconds : Option Rat
  pub revision_timeout_seconds : Option Rat
  pub event_silence_timeout_seconds : Rat
  pub min_turn_seconds : Rat
  pub strict : Bool
  pub keep_workspaces : Bool

unfoldable pub profiles : ExecutionPlan → List AgentProfile
profiles plan = elim plan.reviewer [
  | none ↦ plan.modifier ∷ []
  | some reviewer ↦ plan.modifier ∷ reviewer ∷ []
]

-- `asdict` of the dataclasses, whose tuples are lists in JSON.
abbrev texts : List String → Items
texts [] = nil
texts (s ∷ ss) = cons (str s) (texts ss)

unfoldable pub config_dict : Option KimiModelConfig → Json
config_dict none = null
config_dict (some c) = obj (
    field "provider" (str c.provider) (
      field "provider_type" (str c.provider_type) (
        field "base_url" (str c.base_url) (
          field "upstream_model" (str c.upstream_model) (
            field "max_context_size" (int c.max_context_size) (
              field "capabilities" (arr (texts c.capabilities)) (
                field "support_efforts" (arr (texts c.support_efforts))
                  (field "default_effort" (str c.default_effort) end))))))))

abbrev optional_text : Option String → Json
optional_text none = null
optional_text (some s) = str s

unfoldable pub profile_dict : AgentProfile → Json
profile_dict p = obj (
    field "name" (str p.name) (
      field "status" (str p.status) (
        field "adapter" (str p.adapter) (
          field "model" (str p.model) (
            field "effort" (optional_text p.effort) (
              field "auth" (str p.auth) (
                field "permissions" (str p.permissions) (
                  field "model_config" (config_dict p.model_config)
                    (field "benchmark_mode" (bool p.benchmark_mode) end)))))))))

unfoldable pub budget_dict : Budget → Json
budget_dict b = obj (
    field "task_timeout_seconds" (float b.task_timeout_seconds) (
      field "agent_timeout_multiplier" (float b.agent_timeout_multiplier) (
        field "hard_timeout_seconds" (float b.hard_timeout_seconds) (
          field "cleanup_reserve_seconds" (float b.cleanup_reserve_seconds)
            (field "soft_deadline_seconds" (float b.soft_deadline_seconds) end)))))

abbrev topology_text : Topology → String
topology_text Topology.single = "single"
topology_text Topology.collab = "collab"

abbrev workflow_text : Workflow → String
workflow_text Workflow.single = "single"
workflow_text Workflow.review_loop = "review-loop"

-- `if value is not None: fields[key] = value`
abbrev with_timeout : String → Option Rat → Fields → Fields
with_timeout key none rest = rest
with_timeout key (some t) rest = field key (float t) rest

unfoldable pub workflow_config : ExecutionPlan → Fields
workflow_config plan = field "maxReviews" (int plan.max_reviews) (
    field "maxAgentAttempts" (int plan.max_agent_attempts) (
      field "eventSilenceTimeoutSeconds" (float plan.event_silence_timeout_seconds) (
        field "minTurnSeconds" (float plan.min_turn_seconds) (
          field "strict" (bool plan.strict) (
            field "keepWorkspaces" (bool plan.keep_workspaces) (
              with_timeout "reviewerTimeoutSeconds" plan.reviewer_timeout_seconds
                (with_timeout "revisionTimeoutSeconds" plan.revision_timeout_seconds end)))))))

abbrev reviewer_dict : Option AgentProfile → Json
reviewer_dict none = null
reviewer_dict (some p) = profile_dict p

-- `ExecutionPlan.to_dict`
unfoldable pub to_dict : ExecutionPlan → Fields
to_dict plan = field "schemaVersion" (int (pos plan.schema_version)) (
    field "topology" (str (topology_text plan.topology)) (
      field "workflow" (str (workflow_text plan.workflow)) (
        field "engine" (str "direct") (
          field "roles"
            (obj (
              field "modifier" (profile_dict plan.modifier)
                (field "reviewer" (reviewer_dict plan.reviewer) end)))
            (field "budget" (budget_dict plan.budget) (
              field "runtime"
                (obj (
                  field "manifestDigest" (str plan.runtime_manifest_digest)
                    (field "image" (str plan.runtime_image) end)))
                (field "workflowConfig" (obj (workflow_config plan)) end)))))))
