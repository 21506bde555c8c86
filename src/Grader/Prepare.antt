-- ===== src/Grader/Prepare.antt =====
-- grader.py: `cmd_prepare`, as the sequence of its effects on the checkout. What git and the file
-- system answer is a parameter: it may depend on everything that was done before.
pub mod Effects
use deepswe_eval_lab.Base.{
  ℕ, String, Bool, true, false, ◌&&◌, not, Option, none, some, List, [], ◌∷◌, ◌++◌, ◌==◌, eqb,
  if◌then◌else◌,
}
use deepswe_eval_lab.Grader.Score.{Config, Reward, load_ids, stats}
use deepswe_eval_lab.Grader.Patch.{patch_paths}

pub data Event : Type 0 where
  -- `git config --global --add safe.directory`
  trust : Event
  -- `git checkout -q ref -- path`
  checkout : String → String → Event
  -- `rm -rf -- path`
  remove : String → Event
  -- `git apply` of model.patch and of test.patch
  apply_model apply_test : Event
  -- `chmod` of the inner test.sh
  make_executable : Event

pub record Host : Type 0 where
  -- The exit status of an event after a history.
  pub returncode : List Event → Event → ℕ
  -- Whether a path exists after a history.
  pub exists : List Event → String → Bool

-- The file system as `prepare` finds it; `none` stands for a file that does not exist.
pub record Input : Type 0 where
  pub app_is_dir : Bool
  pub model_patch : Option String
  pub test_patch : String

-- How `prepare` ends: what it did, its exit status, and the reward.json that it wrote.
pub record Prepared : Type 0 where
  pub log : List Event
  pub exit : ℕ
  pub reward_json : Option Reward

-- A patch file that is missing or empty counts as none.
abbrev pub submitted : Input → Option String
submitted input = elim input.model_patch [
  | none ↦ none
  | some text ↦ if text == "" then none else some text
]

module _ (host : Host) where
  -- One round of the loop of `reset_paths`.
  unfoldable pub reset_path : String → List Event → String → List Event
  reset_path ref log f =
      let tried = log ++ checkout ref f ∷ [] in
      if f == ""
      then log
      else if not (eqb (host.returncode log (checkout ref f)) 0)
          && (ref == "HEAD" && host.exists tried f)
      then tried ++ remove f ∷ []
      else tried

  unfoldable pub reset_paths : List Event → List String → String → List Event
  reset_paths log [] ref = log
  reset_paths log (f ∷ paths) ref = reset_paths (reset_path ref log f) paths ref

  -- The second half, after model.patch: test.patch is applied, or `prepare` fails with git's status.
  unfoldable pub install_tests : Input → List Event → Prepared
  install_tests input log =
      let reset = reset_paths log (patch_paths input.test_patch) "HEAD" in
      let rc = host.returncode reset apply_test in
      if not (eqb rc 0)
      then record { log = reset ++ apply_test ∷ []; exit = rc; reward_json = none }
      else record {
        log = (reset ++ apply_test ∷ []) ++ make_executable ∷ [];
        exit = 0;
        reward_json = none;
      }

  -- `cmd_grade(["--apply-failed"])` and `sys.exit(0)`
  unfoldable pub reject_patch : Config → List Event → Prepared
  reject_patch cfg log = record {
    log = log;
    exit = 0;
    reward_json = some (stats (load_ids cfg.f2p_node_ids) (load_ids cfg.p2p_node_ids) 0 true 0 0);
  }

  -- The branch of a patch that was submitted, `text`.
  unfoldable pub apply_patch : Config → Input → String → Prepared
  apply_patch cfg input text =
      let reset = reset_paths (trust ∷ []) (patch_paths text) cfg.base_commit in
      if not (eqb (host.returncode reset apply_model) 0)
      then reject_patch cfg (reset ++ apply_model ∷ [])
      else install_tests input (reset ++ apply_model ∷ [])

  unfoldable pub cmd_prepare : Config → Input → Prepared
  cmd_prepare cfg input =
      if not input.app_is_dir
      then record { log = []; exit = 6; reward_json = none }
      else elim (submitted input) [
        | none ↦ install_tests input (trust ∷ [])
        | some text ↦ apply_patch cfg input text
      ]
