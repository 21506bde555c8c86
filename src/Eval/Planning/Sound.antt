-- ===== src/Eval/Planning/Sound.antt =====
-- What a plan that was built satisfies.
use deepswe_eval_lab.Base.{◌≡◌, Bool, true, false, ◌&&◌, ◌||◌, not, Option, none, some, ◌==◌}
use deepswe_eval_lab.Base.Dict.{Dict}
use deepswe_eval_lab.Base.Int.{pos, ltb_ℤ}
use deepswe_eval_lab.Base.Rat
use deepswe_eval_lab.Base.Rat.{Rat}
use deepswe_eval_lab.Eval.Models.{Topology, ExecutionPlan}
use deepswe_eval_lab.Eval.Planning.{PlanRequest, present, is_collab, not_positive, soft_deadline}
use deepswe_eval_lab.Eval.Planning.Usable.{IsUsable, IsUsableOption, HasShape}

-- A phase has no timeout, or a positive one that is at least a turn's.
unfoldable pub phase_fits : Rat → Option Rat → Bool
phase_fits min_turn none = true
phase_fits min_turn (some t) = not (not_positive t) && not (Rat.lt t min_turn)

pub record IsSound (request : PlanRequest) (plan : ExecutionPlan) : Type 0 where
  pub modifier : IsUsable request.allow_unverified plan.modifier
  pub reviewer : IsUsableOption request.allow_unverified plan.reviewer
  pub shape : HasShape plan.topology plan.reviewer plan.max_reviews
  pub collab : is_collab plan.topology ≡ (request.agent == "collab")
  pub reviews : (ltb_ℤ request.max_reviews (pos 1) && is_collab plan.topology) ≡ false
  pub attempts : ltb_ℤ plan.max_agent_attempts (pos 1) ≡ false
  pub asked : plan.budget.task_timeout_seconds ≡ request.task_timeout_seconds
  pub multiplier_positive : not_positive plan.budget.agent_timeout_multiplier ≡ false
  pub silence_positive : not_positive plan.event_silence_timeout_seconds ≡ false
  pub hard :
      plan.budget.hard_timeout_seconds
      ≡ Rat.mul plan.budget.task_timeout_seconds plan.budget.agent_timeout_multiplier
  pub soft :
      plan.budget.soft_deadline_seconds
      ≡ Rat.sub plan.budget.hard_timeout_seconds plan.budget.cleanup_reserve_seconds
  pub soft_positive : not_positive plan.budget.soft_deadline_seconds ≡ false
  pub reserve_positive : not_positive plan.budget.cleanup_reserve_seconds ≡ false
  pub min_turn_positive : not_positive plan.min_turn_seconds ≡ false
  pub reviewer_phase : phase_fits plan.min_turn_seconds plan.reviewer_timeout_seconds ≡ true
  pub revision_phase : phase_fits plan.min_turn_seconds plan.revision_timeout_seconds ≡ true
  pub no_phases :
      (not (is_collab plan.topology)
        && (present plan.reviewer_timeout_seconds || present plan.revision_timeout_seconds))
      ≡ false

record HasLimits (request : PlanRequest) (topology : Topology) : Type 0 where
  no_phases :
      (not (is_collab topology)
        && (present request.reviewer_timeout_seconds || present request.revision_timeout_seconds))
      ≡ false
  multiplier : not_positive request.agent_timeout_multiplier ≡ false
  silence : not_positive request.event_silence_timeout_seconds ≡ false
  reserve : not_positive request.cleanup_reserve_seconds ≡ false
  soft : not_positive (soft_deadline request) ≡ false
  reviews : (ltb_ℤ request.max_reviews (pos 1) && is_collab topology) ≡ false
  attempts : ltb_ℤ request.max_agent_attempts (pos 1) ≡ false
  min_turn : not_positive request.min_turn_seconds ≡ false
  reviewer_phase : phase_fits request.min_turn_seconds request.reviewer_timeout_seconds ≡ true
  revision_phase : phase_fits request.min_turn_seconds request.revision_timeout_seconds ≡ true
