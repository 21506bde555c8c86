-- ===== src/Eval/Discovery/Trial.antt =====
-- agent_eval/patch_discovery.py: a trial directory as a validated set of patches.
use deepswe_eval_lab.Base.{
  ℕ, String, Bool, true, false, not, ◌||◌, Option, none, some, List, [], ◌∷◌, ◌++◌, ◌==◌,
  if◌then◌else◌, eqb, length, is_empty, Result, ok, err, ◌>>=◌, reject,
}
use deepswe_eval_lab.Base.Int.{ℤ, pos}
use deepswe_eval_lab.Base.Rat
use deepswe_eval_lab.Base.Rat.{Rat}
use deepswe_eval_lab.Base.Json
use deepswe_eval_lab.Base.Json.{
  Json, Fields, null, bool, int, float, nonfinite, str, arr, obj, end, to_list, truthy, or_else,
  as_int, as_dict, as_list,
}
use deepswe_eval_lab.Eval.Scoring.Patches.{StagePatch, TrialPatchSet}
use deepswe_eval_lab.Eval.Discovery.Layout.{
  Reason, no_config, not_collab, task_unavailable, no_task_checksum, no_result, no_base_commit,
  no_counts, escapes, SafeChild, outside, file, TrialDir, Entry, text_is,
}

-- What the language, the library and the files outside of the trial give: the value of a decimal
-- digit, `str`, `float` (`none` where it raises), whether a task directory has a task.toml, and the
-- last component of a path.
pub record Reader : Type 0 where
  pub digit : ℕ → Option ℕ
  pub show : Json → String
  pub show_nat : ℕ → String
  pub to_float : Json → Option Rat
  pub has_task_toml : String → Bool
  pub path_name : String → String

-- A `LayoutError` with its reasons, or another exception: an attribute of a value that has none, a
-- value that no set can hold, a value that is no float, or the first of no patches.
pub data DiscoveryError : Type 0 where
  layout : List Reason → DiscoveryError
  attribute_error unhashable not_a_float index_error : DiscoveryError

abbrev pub Checked {ℓ} : Type ℓ → Type ℓ
Checked A = Result DiscoveryError A

-- `x.get(...)`
abbrev pub dict_of : Json → Checked Fields
dict_of (obj fs) = ok fs
dict_of _ = err attribute_error

-- `d.get(key, {})`
abbrev pub get_dict : String → Fields → Json
get_dict key fs = elim (Json.find key fs) [ none ↦ obj end | some v ↦ v ]

-- `if test: reasons.append(reason)`
abbrev pub when : Bool → Reason → List Reason
when true reason = reason ∷ []
when false reason = []

-- `isinstance(x, str) and x`
abbrev pub nonempty_text : Json → Option String
nonempty_text (str s) = if s == "" then none else some s
nonempty_text _ = none

abbrev pub is_none {ℓ} : {A : Type ℓ} → Option A → Bool
is_none none = true
is_none (some a) = false

abbrev pub or_zero : Option ℤ → ℤ
or_zero none = pos 0
or_zero (some n) = n

-- `raise LayoutError(trial_dir, reasons)`, if there are any.
abbrev pub raise_if : List Reason → Checked (Unit {0})
raise_if reasons = reject (not (is_empty reasons)) (layout reasons)

unfoldable pub plan_of : Fields → Checked Fields
plan_of config = elim (Json.get "agent" config) [
  | obj agent ↦ do
    kwargs ← dict_of (get_dict "kwargs" agent)
    dict_of (get_dict "execution_plan_json" kwargs)
  | _ ↦ ok end
]

-- `(config.get("task") or {}).get("path")`
unfoldable pub task_path : Fields → Checked Json
task_path config = do
  task ← dict_of (or_else (Json.get "task" config) (obj end))
  ok (Json.get "path" task)

unfoldable pub task_dir : Reader → Json → Option String
task_dir reader (str path) = if reader.has_task_toml path then some path else none
task_dir reader _ = none

-- The values that the two JSON files give.
pub record Header : Type 0 where
  pub result : Fields
  pub config : Fields
  pub summary : Fields
  pub task : Option String
  pub review_count : Option ℤ
  pub revision_count : Option ℤ

unfoldable pub config_of : List Reason → Fields → Checked Fields
config_of reasons result = elim (Json.get "config" result) [
  | obj c ↦ ok c
  | _ ↦ err (layout (reasons ++ no_config ∷ []))
]

abbrev result_of : List Reason → Fields → Checked Fields
result_of reasons summary = elim (Json.get "result" summary) [
  | obj fs ↦ ok fs
  | _ ↦ err (layout (reasons ++ no_result ∷ []))
]

-- The checks on the two JSON files: the reasons so far, and what was read.
unfoldable pub read_header : Reader → Fields → Fields → Checked (List Reason × Header)
read_header reader result summary = do
  config ← config_of [] result
  plan ← plan_of config
  path ← task_path config
  let task = task_dir reader path
  let reasons =
      when (not (text_is "collab" (Json.get "topology" plan))) not_collab
      ++ when (is_none task) task_unavailable
      ++ when (is_none (nonempty_text (Json.get "task_checksum" result))) no_task_checksum
  fields ← result_of reasons summary
  let reviews = as_int (Json.get "reviewCount" fields)
  let revisions = as_int (Json.get "revisionCount" fields)
  ok (
    reasons
        ++ when (is_none (nonempty_text (Json.get "baseCommit" fields))) no_base_commit
        ++ when (is_none reviews || is_none revisions) no_counts,
    record {
      result = result;
      config = config;
      summary = fields;
      task = task;
      review_count = reviews;
      revision_count = revisions;
    },
  )

unfoldable pub child_reasons : String → SafeChild → List Reason
child_reasons relative outside = escapes relative ∷ []
child_reasons relative _ = []

-- `_is_empty`
abbrev pub is_empty_patch : SafeChild → Bool
is_empty_patch (file p) = eqb p.size 0
is_empty_patch _ = true

abbrev pub is_file : SafeChild → Bool
is_file (file p) = true
is_file _ = false

unfoldable pub checkpoint_count : Fields → ℕ
checkpoint_count summary = elim (as_list (Json.get "checkpoints" summary)) [
  | none ↦ 0
  | some xs ↦ length xs
]

abbrev pub is_review : Entry → Bool
is_review e = e.kind == "review"

abbrev pub is_revision : Entry → Bool
is_revision e = e.kind == "revise" || e.kind == "final-revision"

-- `str(x)`
abbrev pub text_or_show : Reader → Json → String
text_or_show reader (str s) = s
text_or_show reader x = reader.show x

abbrev or_end : Json → Json
or_end x = or_else x (obj end)

-- What the two branches give apart from each other.
pub record Body : Type 0 where
  pub eligible : Bool
  pub ineligible_reason : Option String
  pub completed_protocol : Bool
  pub stages : List StagePatch
  pub eval_final_rewards : Option Fields

-- The fields that both branches share.
unfoldable pub patch_set : Reader → TrialDir → Header → Body → Checked TrialPatchSet
patch_set reader dir h body = elim h.task [
  | none ↦ err attribute_error
  | some task ↦
      elim (reader.to_float
        (or_else (Json.get "timeout_multiplier" h.config) (float (Rat.of_nat 1)))) [
          | none ↦ err not_a_float
          | some multiplier ↦ ok (record {
            trial_dir = dir.path;
            trial_name = dir.name;
            task_name =
                text_or_show reader
                  (or_else (Json.get "taskName" h.summary) (str (reader.path_name task)));
            task_dir = task;
            task_checksum = text_or_show reader (Json.get "task_checksum" h.result);
            base_commit = text_or_show reader (Json.get "baseCommit" h.summary);
            outcome = text_or_show reader (Json.get "outcome" h.summary);
            degraded_reason = Json.get "degradedReason" h.summary;
            review_count = or_zero h.review_count;
            revision_count = or_zero h.revision_count;
            no_change_revision = truthy (Json.get "noChangeRevision" h.summary);
            eligible = body.eligible;
            ineligible_reason = body.ineligible_reason;
            completed_protocol = body.completed_protocol;
            stages = body.stages;
            eval_final_rewards = body.eval_final_rewards;
            environment_config = or_end (Json.get "environment" h.config);
            verifier_config = or_end (Json.get "verifier" h.config);
            timeout_multiplier = multiplier;
            verifier_timeout_multiplier = Json.get "verifier_timeout_multiplier" h.config;
            job_artifacts = or_else (Json.get "artifacts" h.config) (arr Json.Items.nil);
          })
        ]
]
