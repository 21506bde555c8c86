-- ===== src/Eval/Discovery/Stages.antt =====
-- agent_eval/patch_discovery.py: the stages of a trial, from its review patches and its final patch.
pub mod Chain
use deepswe_eval_lab.Base.{
  ℕ, zero, suc, ◌+◌, String, ◌<>◌, Bool, true, false, not, Option, none, some, List, [], ◌∷◌, ◌++◌,
  ◌==◌, if◌then◌else◌, length, count_if,
}
use deepswe_eval_lab.Base.Dict
use deepswe_eval_lab.Base.Dict.{Dict}
use deepswe_eval_lab.Eval.Scoring.Patches.{StagePatch}
use deepswe_eval_lab.Eval.Discovery.Layout.{PatchFile, RoundDir, Entry}

-- What `add_stage` changes: `stages`, and `sha_to_stage`.
pub record Staged : Type 0 where
  pub stages : List StagePatch
  pub sha_to_stage : Dict String

-- `xs[-1]`
abbrev pub last_stage : List StagePatch → Option StagePatch
last_stage [] = none
last_stage (s ∷ []) = some s
last_stage (s ∷ t ∷ rest) = last_stage (t ∷ rest)

abbrev pub id_of : Option StagePatch → Option String
id_of none = none
id_of (some s) = some s.stage_id

-- `sha != parent_sha`
abbrev pub differs : String → Option StagePatch → Bool
differs sha none = true
differs sha (some s) = not (s.patch_sha256 == sha)

-- A stage before it is placed among the others.
pub record NewStage : Type 0 where
  pub stage_id : String
  pub patch_path : String
  pub sha : String
  pub origin_round : Option String

abbrev pub stage_after : List StagePatch → Dict String → NewStage → StagePatch
stage_after stages seen new = record {
  stage_id = new.stage_id;
  parent_stage_id = id_of (last_stage stages);
  ordinal = length stages;
  patch_path = new.patch_path;
  patch_sha256 = new.sha;
  origin_round = new.origin_round;
  changed = differs new.sha (last_stage stages);
  alias_of = Dict.get new.sha seen;
}

unfoldable pub add_stage : NewStage → Staged → Staged
add_stage new st = record {
  stages = st.stages ++ stage_after st.stages st.sha_to_stage new ∷ [];
  sha_to_stage = Dict.set_default new.sha new.stage_id st.sha_to_stage;
}

-- A review round with its patch.
abbrev pub ReviewPatch : Type 0
ReviewPatch = Entry × PatchFile

abbrev pub round_path : String → RoundDir → String
round_path trial_path dir = trial_path <> "/agent/system/rounds/" <> dir.name <> "/patch.diff"

abbrev pub review_stage : String → String → ReviewPatch → NewStage
review_stage trial_path id (e, patch) = record {
  stage_id = id;
  patch_path = round_path trial_path e.dir;
  sha = patch.sha256;
  origin_round = some e.dir.name;
}

abbrev pub final_stage : String → PatchFile → NewStage
final_stage trial_path final = record {
  stage_id = "final";
  patch_path = trial_path <> "/agent/system/final/patch.diff";
  sha = final.sha256;
  origin_round = none;
}

-- The stages of the later review rounds, numbered from `index`.
unfoldable pub revision_stages : (ℕ → String) → String → ℕ → List ReviewPatch → List NewStage
revision_stages show_nat trial_path index [] = []
revision_stages show_nat trial_path index (p ∷ rest) =
    review_stage trial_path ("revision-" <> show_nat index) p
    ∷ revision_stages show_nat trial_path (suc index) rest

unfoldable pub add_stages : List NewStage → Staged → Staged
add_stages [] st = st
add_stages (new ∷ rest) st = add_stages rest (add_stage new st)

-- The stages of a trial with a first review patch, in the order in which they are added.
unfoldable pub stages_of :
    (ℕ → String) → String → ReviewPatch → List ReviewPatch → PatchFile → List StagePatch
stages_of show_nat trial_path first rest final =
    (add_stages
      (review_stage trial_path "initial" first
        ∷ (revision_stages show_nat trial_path 1 rest ++ final_stage trial_path final ∷ []))
      (record { stages = []; sha_to_stage = [] })).stages

-- `sum(1 for s in stages[1:] if s.changed)`
unfoldable pub changed_after_initial : List StagePatch → ℕ
changed_after_initial [] = 0
changed_after_initial (s ∷ rest) = count_if (λ (s : StagePatch). s.changed) rest
