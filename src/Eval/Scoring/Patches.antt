-- ===== src/Eval/Scoring/Patches.antt =====
-- agent_eval/patch_discovery.py and patch_scoring.py: the patches of a trial and their scores.
use deepswe_eval_lab.Base.{ℕ, String, Bool, true, false, Option, none, some, List}
use deepswe_eval_lab.Base.Int.{ℤ}
use deepswe_eval_lab.Base.Rat
use deepswe_eval_lab.Base.Rat.{Rat}
use deepswe_eval_lab.Base.Json
use deepswe_eval_lab.Base.Json.{Json, Fields, null, bool, int, float, nonfinite, str, arr, obj}

pub record StagePatch : Type 0 where
  pub stage_id : String
  pub parent_stage_id : Option String
  pub ordinal : ℕ
  pub patch_path : String
  pub patch_sha256 : String
  pub origin_round : Option String
  pub changed : Bool
  pub alias_of : Option String

pub record TrialPatchSet : Type 0 where
  pub trial_dir : String
  pub trial_name : String
  pub task_name : String
  pub task_dir : String
  pub task_checksum : String
  pub base_commit : String
  pub outcome : String
  pub degraded_reason : Json
  pub review_count : ℤ
  pub revision_count : ℤ
  pub no_change_revision : Bool
  pub eligible : Bool
  pub ineligible_reason : Option String
  pub completed_protocol : Bool
  pub stages : List StagePatch
  pub eval_final_rewards : Option Fields
  pub environment_config : Json
  pub verifier_config : Json
  pub timeout_multiplier : Rat
  pub verifier_timeout_multiplier : Json
  pub job_artifacts : Json

pub record Fingerprint : Type 0 where
  pub schema_version : String
  pub task_checksum : String
  pub task_config_digest : String
  pub base_commit : String
  pub patch_sha256 : String
  pub pier_version : String
  pub verifier_config_digest : String
  pub build_context_digest : String
  pub adapter_schema_version : String

pub record StageScore : Type 0 where
  pub stage : StagePatch
  pub fingerprint : Fingerprint
  pub fingerprint_id : String
  pub score_source : String
  pub status : String
  pub rewards : Option Fields
  pub scored_in_trial : Option String
  pub cached : Bool

-- `float(value) if isinstance(value, (int, float)) else None`; a NaN or an infinite reward is not
-- modelled, and is no number here.
unfoldable pub number_of : Json → Option Rat
number_of (int n) = some (Rat.of_int n)
number_of (bool true) = some (Rat.of_nat 1)
number_of (bool false) = some (Rat.of_nat 0)
number_of (float x) = some x
number_of _ = none

unfoldable pub rewards_reward : Option Fields → Option Rat
rewards_reward none = none
rewards_reward (some rewards) = number_of (Json.get "reward" rewards)

-- `_StageScore.reward`
unfoldable pub reward : StageScore → Option Rat
reward score = rewards_reward score.rewards
