-- ===== src/Eval/Discovery/Tests.antt =====
-- Runs of the discovery at a concrete trial directory.
use deepswe_eval_lab.Base.{
  ℕ, String, ◌≡◌, refl, true, false, Option, none, some, [], ◌∷◌, ◌-◌, ok, if◌then◌else◌, ◌&&◌, leb,
}
use deepswe_eval_lab.Base.Int.{pos}
use deepswe_eval_lab.Base.Int
use deepswe_eval_lab.Base.Rat
use deepswe_eval_lab.Base.Json
use deepswe_eval_lab.Base.Json.{Json, Fields, null, str, int, bool, arr, obj, nil, cons, field, end}
use deepswe_eval_lab.Eval.Scoring.Patches.{TrialPatchSet}
use deepswe_eval_lab.Eval.Discovery.Layout.{
  JsonFile, loaded, absent, PatchFile, file, RoundDir, TrialDir, Entry,
}
use deepswe_eval_lab.Eval.Discovery.Layout
use deepswe_eval_lab.Eval.Discovery.Stages.{ReviewPatch, stages_of}
use deepswe_eval_lab.Eval.Discovery.Stages
use deepswe_eval_lab.Eval.Discovery.Stages.Chain.{IsStages, stages_of-IsStages}
use deepswe_eval_lab.Eval.Discovery.Trial.{Reader}
use deepswe_eval_lab.Eval.Discovery.Trial
use deepswe_eval_lab.Eval.Discovery.Scan.{discover_trial_patches}
use deepswe_eval_lab.Eval.Discovery.Scan
use deepswe_eval_lab.Eval.Discovery.Scan.Valid.{IsDiscovered, discover_trial_patches-IsDiscovered}

abbrev pub reader : Reader
reader = record {
  digit = λ c. if leb 48 c && leb c 57 then some (c - 48) else none;
  show = λ j. "None";
  show_nat = λ n. "n";
  to_float = λ j. some (Rat.of_nat 1);
  has_task_toml = λ path. true;
  path_name = λ path. "task";
}

-- The metadata of a round whose only attempt succeeded.
abbrev pub metadata : String → JsonFile
metadata role = loaded (
    obj (
      field "role" (str role)
        (field "attempts" (arr (cons (obj (field "status" (str "success") end)) nil)) end)))

abbrev pub round : String → String → Option PatchFile → RoundDir
round name role patch = record {
  name = name;
  is_dir = true;
  metadata = metadata role;
  patch = patch;
}

abbrev pub patch : String → PatchFile
patch sha = record { size = 10; sha256 = sha }

abbrev pub result : Fields
result =
    field "config"
      (obj (
        field "agent"
          (obj (
            field "kwargs"
              (obj (field "execution_plan_json" (obj (field "topology" (str "collab") end)) end))
              end))
          (field "task" (obj (field "path" (str "tasks/task") end)) end)))
      (field "task_checksum" (str "c") end)

abbrev pub summary : Fields
summary = field "outcome" (str "approved") (
    field "baseCommit" (str "abc") (
      field "reviewCount" (int (pos 2))
        (field "revisionCount" (int (pos 1)) (field "checkpoints" (arr (cons null nil)) end))))

-- A first patch, a revision that changes it, and a final patch that is the revision's.
abbrev pub dir : TrialDir
dir = record {
  path = "job/t1";
  name = "t1";
  result = loaded (obj result);
  summary = loaded (obj (field "result" (obj summary) end));
  rounds = some (
      round "00-modify" "modifier" none
      ∷ round "01-review" "reviewer" (some (patch "p1"))
      ∷ round "02-revise" "modifier" none
      ∷ round "03-review" "reviewer" (some (patch "p2"))
      ∷ []);
  final = file (patch "p2");
  model = file (patch "p2");
}

abbrev pub review : ℕ → String → String → ReviewPatch
review n name sha = (
  record { number = n; kind = "review"; dir = round name "reviewer" (some (patch sha)) },
  patch sha,
)

abbrev pub trial : TrialPatchSet
trial = record {
  trial_dir = "job/t1";
  trial_name = "t1";
  task_name = "task";
  task_dir = "tasks/task";
  task_checksum = "c";
  base_commit = "abc";
  outcome = "approved";
  degraded_reason = null;
  review_count = pos 2;
  revision_count = pos 1;
  no_change_revision = false;
  eligible = true;
  ineligible_reason = none;
  completed_protocol = true;
  stages =
      stages_of reader.show_nat "job/t1" (review 1 "01-review" "p1")
        (review 3 "03-review" "p2" ∷ []) (patch "p2");
  eval_final_rewards = none;
  environment_config = obj end;
  verifier_config = obj end;
  timeout_multiplier = Rat.of_nat 1;
  verifier_timeout_multiplier = null;
  job_artifacts = arr nil;
}

stages_of-IsStages_example :
    IsStages reader.show_nat
      (review 1 "01-review" "p1")
      (review 3 "03-review" "p2" ∷ [])
      (patch "p2")
      (stages_of reader.show_nat "job/t1"
        (review 1 "01-review" "p1")
        (review 3 "03-review" "p2" ∷ [])
        (patch "p2"))
stages_of-IsStages_example =
    stages_of-IsStages reader.show_nat "job/t1" (review 1 "01-review" "p1")
      (review 3 "03-review" "p2" ∷ []) (patch "p2")

pub discover_run : discover_trial_patches reader dir ≡ ok trial
unfolding Scan.discover_trial_patches Scan.read_both Scan.with_header Scan.by_checkpoint
    Scan.with_initial_patch Scan.check_files Scan.check_rounds Scan.eligible_set Scan.path_reasons
    Scan.file_reasons Scan.rounds_reasons Scan.review_loop Scan.review_reasons Scan.review_patch
    Scan.revise_loop Scan.count_reasons Scan.interrupted_reasons Scan.eval_rewards
    Scan.completed_protocol Trial.read_header Trial.config_of Trial.plan_of Trial.task_path
    Trial.task_dir Trial.child_reasons Trial.checkpoint_count Trial.patch_set Layout.load_json
    Layout.round_entries Layout.entries_loop Layout.round_name Layout.round_kind Layout.sort_entries
    Layout.insert_entry Layout.has_role Layout.round_succeeded Stages.changed_after_initial
    Stages.stages_of Stages.add_stages Stages.add_stage Stages.revision_stages Json.get Json.find
    Json.to_list Json.truthy Int.◌+ℤ◌
discover_run = refl

discover_trial_patches-IsDiscovered_example :
    (trial.trial_name ≡ dir.name)
    × IsDiscovered reader.show_nat dir (Layout.round_entries reader.digit dir.rounds).1 trial
discover_trial_patches-IsDiscovered_example =
    discover_trial_patches-IsDiscovered reader dir trial discover_run
