-- ===== src/Eval/Scoring/Pairs.antt =====
-- agent_eval/patch_scoring.py: the row that pairs the first with the final score of a trial.
use deepswe_eval_lab.Base.{
  String, Bool, true, false, not, ◌&&◌, ◌||◌, Option, none, some, List, [], ◌∷◌, ◌==◌,
  if◌then◌else◌,
}
use deepswe_eval_lab.Base.Int.{ℤ}
use deepswe_eval_lab.Base.Rat
use deepswe_eval_lab.Base.Rat.{Rat}
use deepswe_eval_lab.Base.Json
use deepswe_eval_lab.Base.Json.{Json, Fields, end, str, or_else}
use deepswe_eval_lab.Eval.Models.{given}
use deepswe_eval_lab.Eval.Scoring.Patches.{StagePatch, TrialPatchSet, StageScore, reward}
use deepswe_eval_lab.Eval.Scoring.Equality.{json_eq}

-- An entry of `revision_deltas`.
pub record RevisionDelta : Type 0 where
  pub stage : String
  pub parent : Option String
  pub delta : Rat

pub record Pair : Type 0 where
  pub task : String
  pub trial : String
  pub outcome : String
  pub degraded_reason : Json
  pub review_count : ℤ
  pub revision_count : ℤ
  pub initial_reward : Option Rat
  pub final_reward : Option Rat
  pub delta : Option Rat
  pub classification : String
  pub final_score_source : String
  pub final_conformance : String
  pub itt_included : Bool
  pub completed_protocol : Bool
  pub revision_deltas : List RevisionDelta

abbrev pub is_none {ℓ} : {A : Type ℓ} → Option A → Bool
is_none none = true
is_none (some a) = false

unfoldable pub classify : Option Rat → String
unfolding Rat.lt
classify none = "incomplete"
classify (some delta) =
    if Rat.lt (Rat.of_nat 0) delta
    then "improved"
    else if Rat.lt delta (Rat.of_nat 0)
    then "harmed"
    else "unchanged"

-- The final score with the rewards of the evaluation in place of its own.
unfoldable pub reuse_eval : TrialPatchSet → StageScore → StageScore
reuse_eval trial score = elim trial.eval_final_rewards [
  | none ↦ score
  | some rewards ↦ record score {
    score_source = "eval";
    status = "success";
    rewards = some rewards;
    scored_in_trial = some trial.trial_name;
  }
]

unfoldable pub compare_final : Fields → StageScore → String
compare_final eval_rewards score =
    if json_eq (Json.get "reward" eval_rewards) (Json.get "reward" (given score.rewards end))
    then "matched"
    else "mismatched"

-- Whether the final score that was run again agrees with the one of the evaluation.
unfoldable pub conformance : TrialPatchSet → StageScore → String
conformance trial score = elim trial.eval_final_rewards [
  | none ↦ "unavailable"
  | some eval_rewards ↦
      if score.status == "success" then compare_final eval_rewards score else "unavailable"
]

-- What the branches on `reuse_final_score` bind.
pub record FinalScore : Type 0 where
  pub score : StageScore
  pub conformance : String
  pub source : String

unfoldable pub final_score : Bool → TrialPatchSet → StageScore → FinalScore
final_score reuse trial score =
    if reuse
    then record { score = reuse_eval trial score; conformance = "skipped"; source = "eval" }
    else record { score = score; conformance = conformance trial score; source = "direct" }

unfoldable pub difference : Option Rat → Option Rat → Option Rat
difference (some initial) (some final) = some (Rat.sub final initial)
difference _ _ = none

-- A later stage that changed the patch, with its score and that of its parent.
pub record Revision : Type 0 where
  pub stage : StagePatch
  pub child : StageScore
  pub parent : StageScore

-- What the loop over the trials has of one: its patches, and the scores that it looks up, each of its
-- stages' in their order, the first and the final one's, and those of the revisions.
pub record Scored : Type 0 where
  pub trial : TrialPatchSet
  pub final : StageScore
  pub stages : List StageScore
  pub initial : StageScore
  pub revisions : List Revision

-- The score of a stage, which is the one that the loop may have changed if the stage is the final one.
abbrev score_now : StageScore → Option String → StageScore → StageScore
score_now final none score = score
score_now final (some stage_id) score = if stage_id == "final" then final else score

abbrev with_delta : StagePatch → Option Rat → List RevisionDelta → List RevisionDelta
with_delta stage none rest = rest
with_delta stage (some delta) rest =
    record { stage = stage.stage_id; parent = stage.parent_stage_id; delta = delta } ∷ rest

-- `revision_deltas`: a revision without one of its rewards is left out.
unfoldable pub revision_deltas : StageScore → List Revision → List RevisionDelta
revision_deltas final [] = []
revision_deltas final (r ∷ rest) =
    with_delta r.stage
      (difference (reward (score_now final r.stage.parent_stage_id r.parent))
        (reward (score_now final (some r.stage.stage_id) r.child)))
      (revision_deltas final rest)

abbrev pair_row :
    TrialPatchSet → Option Rat → Option Rat → Option Rat → FinalScore → List RevisionDelta → Pair
pair_row trial initial_reward final_reward delta final revision_deltas = record {
  task = trial.task_name;
  trial = trial.trial_name;
  outcome = trial.outcome;
  degraded_reason = or_else trial.degraded_reason (str "");
  review_count = trial.review_count;
  revision_count = trial.revision_count;
  initial_reward = initial_reward;
  final_reward = final_reward;
  delta = delta;
  classification = classify delta;
  final_score_source = final.source;
  final_conformance = final.conformance;
  itt_included =
      not (is_none delta) && (final.conformance == "matched" || final.conformance == "skipped");
  completed_protocol = trial.completed_protocol;
  revision_deltas = revision_deltas;
}

unfoldable pub pair_of : Bool → Scored → Pair
pair_of reuse scored =
    let final = final_score reuse scored.trial scored.final in
    pair_row scored.trial (reward scored.initial) (reward final.score)
      (difference (reward scored.initial) (reward final.score)) final
      (revision_deltas final.score scored.revisions)
