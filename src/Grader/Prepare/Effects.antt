-- ===== src/Grader/Prepare/Effects.antt =====
-- The order and the reach of the effects of `prepare`, and when it writes a reward.
use deepswe_eval_lab.Base.{
  String, ◌≡◌, Bool, true, false, ◌&&◌, not, if◌then◌else◌, keep, Option, none, some, List, [], ◌∷◌,
  ◌++◌, arith, ◌==◌, eqb, mem, all,
}
use deepswe_eval_lab.Grader.Score.{Config, Reward}
use deepswe_eval_lab.Grader.Patch.{patch_paths}
use deepswe_eval_lab.Grader.Prepare.{
  Event, trust, checkout, remove, apply_model, apply_test, make_executable, Host, Input, Prepared,
  reset_paths, install_tests, reject_patch, apply_patch, submitted, cmd_prepare,
}

-- A reset of a listed path to a commit. Only a reset to HEAD may remove a path.
abbrev pub is_reset : String → List String → Event → Bool
is_reset ref paths (checkout r f) = r == ref && mem f paths
is_reset ref paths (remove f) = ref == "HEAD" && mem f paths
is_reset ref paths _ = false

-- The paths that a sequence of effects checks out, in order.
unfoldable pub checked_out : List Event → List String
checked_out [] = []
checked_out (checkout r f ∷ rest) = f ∷ checked_out rest
checked_out (_ ∷ rest) = checked_out rest

-- Paths but the empty one.
abbrev pub named : List String → List String
named paths = keep (λ f. not (f == "")) paths

-- What a reset adds to the log.
abbrev Added : String → List String → List String → List Event → List Event → Type 0
Added ref whole paths before after =
    (rs : List Event) × (after ≡ before ++ rs)
    × (all (is_reset ref whole) rs ≡ true)
    × (checked_out rs ≡ named paths)

-- How the installation of the tests goes: `before` are resets to HEAD of the paths of test.patch, each
-- of which is checked out, `after` makes test.sh executable if the patch applied and is nothing else,
-- and there is no reward.
pub record Installs (test_patch : String) (done : Prepared) (before after : List Event)
    : Type 0 where
  pub resets : all (is_reset "HEAD" (patch_paths test_patch)) before ≡ true
  pub all_reset : checked_out before ≡ named (patch_paths test_patch)
  pub ending : after ≡ (if eqb done.exit 0 then make_executable ∷ [] else [])
  pub no_reward : done.reward_json ≡ none

abbrev pub is_some {ℓ} : {A : Type ℓ} → Option A → Bool
is_some none = false
is_some (some a) = true

-- What follows the attempt to apply model.patch: the rejection, which ends the run with a reward of
-- 0 and exit status 0, or the resets to HEAD and the attempt to apply test.patch, with no reward.
abbrev pub Rejected : Prepared → List Event → Type 0
Rejected done tail =
    (tail ≡ [])
    × (done.exit ≡ 0)
    × (r : Reward) × (done.reward_json ≡ some r)
    × (r.reward ≡ 0)
    × (r.apply_failed ≡ true)

abbrev pub Installed : Input → Prepared → List Event → Type 0
Installed input done tail =
    (ts : List Event) × (end : List Event) × (tail ≡ ts ++ apply_test ∷ end)
    × Installs input.test_patch done ts end

module _ (host : Host) where
  -- A reward is written exactly if a patch was submitted and git refused it after the resets.
  pub cmd_prepare-reward :
      (cfg : Config) (input : Input)
      → is_some (cmd_prepare host cfg input).reward_json ≡ (
          input.app_is_dir && (elim (submitted input) [
            | none ↦ false
            | some text ↦ not (
                eqb
                  (host.returncode
                    (reset_paths host (trust ∷ []) (patch_paths text) cfg.base_commit)
                    apply_model)
                  0)
          ]))
  unfolding cmd_prepare apply_patch reject_patch install_tests
  cmd_prepare-reward cfg input = ground arith
