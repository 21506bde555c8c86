-- ===== src/Eval/Planning.antt =====
-- agent_eval/planning.py: one execution plan from the options of the command line.
pub mod Usable
pub mod Sound
use deepswe_eval_lab.Base.{
  ℕ, zero, suc, String, Bool, true, false, ◌&&◌, ◌||◌, not, Option, none, some, List, [], ◌∷◌, ◌==◌,
  if◌then◌else◌, Result, ok, err, ◌>>=◌, ◌>>◌, reject,
}
use deepswe_eval_lab.Base.Dict.{Dict}
use deepswe_eval_lab.Base.Int.{ℤ, pos, negsuc, ltb_ℤ}
use deepswe_eval_lab.Base.Rat
use deepswe_eval_lab.Base.Rat.{Rat}
use deepswe_eval_lab.Eval.Models.{AgentProfile, Budget, Topology, Workflow, ExecutionPlan}
use deepswe_eval_lab.Eval.Models
use deepswe_eval_lab.Eval.Profiles.{ProfileError, resolve}

pub record PlanRequest : Type 0 where
  pub agent : String
  pub modifier : Option String
  pub reviewer : Option String
  pub model : Option String
  pub effort : Option String
  pub modifier_model : Option String
  pub modifier_effort : Option String
  pub reviewer_model : Option String
  pub reviewer_effort : Option String
  pub allow_unverified : Bool
  pub task_timeout_seconds : Rat
  pub agent_timeout_multiplier : Rat
  pub cleanup_reserve_seconds : Rat
  pub runtime_manifest_digest : String
  pub runtime_image : String
  pub max_reviews : ℤ
  pub max_agent_attempts : ℤ
  pub reviewer_timeout_seconds : Option Rat
  pub revision_timeout_seconds : Option Rat
  pub event_silence_timeout_seconds : Rat
  pub min_turn_seconds : Rat
  pub strict : Bool
  pub keep_workspaces : Bool

-- A `ValueError` by the check that raises it, or what resolving a profile raises.
pub data PlanError : Type 0 where
  profile_error : ProfileError → PlanError
  roles_required role_overrides_only no_roles single_overrides_only no_phase_timeouts : PlanError
  multiplier_not_positive reserve_not_positive no_time_left too_few_reviews too_few_attempts :
      PlanError
  silence_not_positive min_turn_not_positive : PlanError
  phase_not_positive phase_too_short : String → PlanError

abbrev pub Planned {ℓ} : Type ℓ → Type ℓ
Planned A = Result PlanError A

abbrev pub present {ℓ} : {A : Type ℓ} → Option A → Bool
present none = false
present (some a) = true

abbrev pub is_collab : Topology → Bool
is_collab Models.Topology.single = false
is_collab Models.Topology.collab = true

-- `x <= 0`
abbrev pub not_positive : Rat → Bool
not_positive x = Rat.le x (Rat.of_nat 0)

-- `registry.resolve`, its errors among those of the plan.
unfoldable pub resolve_role :
    Dict AgentProfile → String → Bool → Option String → Option String → Planned AgentProfile
resolve_role registry name allow_unverified model effort =
    elim (resolve registry name allow_unverified model effort) [
      | ok p ↦ ok p
      | err e ↦ err (profile_error e)
    ]

-- What the branches on `request.agent` bind.
pub record Roles : Type 0 where
  pub topology : Topology
  pub workflow : Workflow
  pub modifier : AgentProfile
  pub reviewer : Option AgentProfile
  pub max_reviews : ℤ

unfoldable pub collab_roles : PlanRequest → Dict AgentProfile → String → String → Planned Roles
collab_roles request registry modifier reviewer = do
  reject (present request.model || present request.effort) role_overrides_only
  modifier ←
      resolve_role registry modifier request.allow_unverified request.modifier_model
        request.modifier_effort
  reviewer ←
      resolve_role registry reviewer request.allow_unverified request.reviewer_model
        request.reviewer_effort
  ok (record {
    topology = Models.Topology.collab;
    workflow = Models.Workflow.review_loop;
    modifier = modifier;
    reviewer = some reviewer;
    max_reviews = request.max_reviews;
  })

abbrev pub role_overrides : PlanRequest → Bool
role_overrides request =
    present request.modifier_model
    || present request.modifier_effort
    || present request.reviewer_model
    || present request.reviewer_effort

unfoldable pub single_roles : PlanRequest → Dict AgentProfile → Planned Roles
single_roles request registry = do
  reject (present request.modifier || present request.reviewer) no_roles
  reject (role_overrides request) single_overrides_only
  modifier ←
      resolve_role registry request.agent request.allow_unverified request.model request.effort
  ok (record {
    topology = Models.Topology.single;
    workflow = Models.Workflow.single;
    modifier = modifier;
    reviewer = none;
    max_reviews = pos 0;
  })

unfoldable pub both_roles :
    PlanRequest → Dict AgentProfile → Option String → Option String → Planned Roles
both_roles request registry (some modifier) (some reviewer) =
    collab_roles request registry modifier reviewer
both_roles request registry _ _ = err roles_required

unfoldable pub roles_of : PlanRequest → Dict AgentProfile → Planned Roles
roles_of request registry =
    if request.agent == "collab"
    then both_roles request registry request.modifier request.reviewer
    else single_roles request registry

abbrev phase_ok : String → Rat → Rat → Planned (Unit {0})
phase_ok option value min_turn = do
  reject (not_positive value) (phase_not_positive option)
  reject (Rat.lt value min_turn) (phase_too_short option)

unfoldable pub phase_loop : List (String × Option Rat) → Rat → Planned (Unit {0})
phase_loop [] min_turn = ok tt
phase_loop ((option, none) ∷ rest) min_turn = phase_loop rest min_turn
phase_loop ((option, some value) ∷ rest) min_turn = do
  phase_ok option value min_turn
  phase_loop rest min_turn

abbrev pub phase_timeouts : PlanRequest → List (String × Option Rat)
phase_timeouts request =
    ("--reviewer-timeout-seconds", request.reviewer_timeout_seconds)
    ∷ ("--revision-timeout-seconds", request.revision_timeout_seconds)
    ∷ []

abbrev pub hard_timeout : PlanRequest → Rat
hard_timeout request = Rat.mul request.task_timeout_seconds request.agent_timeout_multiplier

abbrev pub soft_deadline : PlanRequest → Rat
soft_deadline request = Rat.sub (hard_timeout request) request.cleanup_reserve_seconds

-- The checks after the roles are known.
unfoldable pub check_limits : PlanRequest → Topology → Planned (Unit {0})
check_limits request topology = do
  reject
      (not (is_collab topology)
        && (present request.reviewer_timeout_seconds || present request.revision_timeout_seconds))
      no_phase_timeouts
  reject (not_positive request.agent_timeout_multiplier) multiplier_not_positive
  reject (not_positive request.cleanup_reserve_seconds) reserve_not_positive
  reject (not_positive (soft_deadline request)) no_time_left
  reject (ltb_ℤ request.max_reviews (pos 1) && is_collab topology) too_few_reviews
  reject (ltb_ℤ request.max_agent_attempts (pos 1)) too_few_attempts
  reject (not_positive request.event_silence_timeout_seconds) silence_not_positive
  reject (not_positive request.min_turn_seconds) min_turn_not_positive
  phase_loop (phase_timeouts request) request.min_turn_seconds

abbrev pub plan_of : PlanRequest → Roles → ExecutionPlan
plan_of request roles = record {
  schema_version = 1;
  topology = roles.topology;
  workflow = roles.workflow;
  modifier = roles.modifier;
  reviewer = roles.reviewer;
  budget = record {
    task_timeout_seconds = request.task_timeout_seconds;
    agent_timeout_multiplier = request.agent_timeout_multiplier;
    hard_timeout_seconds = hard_timeout request;
    cleanup_reserve_seconds = request.cleanup_reserve_seconds;
    soft_deadline_seconds = soft_deadline request;
  };
  runtime_manifest_digest = request.runtime_manifest_digest;
  runtime_image = request.runtime_image;
  max_reviews = roles.max_reviews;
  max_agent_attempts = request.max_agent_attempts;
  reviewer_timeout_seconds = request.reviewer_timeout_seconds;
  revision_timeout_seconds = request.revision_timeout_seconds;
  event_silence_timeout_seconds = request.event_silence_timeout_seconds;
  min_turn_seconds = request.min_turn_seconds;
  strict = request.strict;
  keep_workspaces = request.keep_workspaces;
}

unfoldable pub build_execution_plan : PlanRequest → Dict AgentProfile → Planned ExecutionPlan
build_execution_plan request registry = do
  roles ← roles_of request registry
  check_limits request roles.topology
  ok (plan_of request roles)
