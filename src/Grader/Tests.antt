-- ===== src/Grader/Tests.antt =====
-- The verifier on two small reports, and its theorems at them.
use mathlib.Core.List.Perm
use deepswe_eval_lab.Base.{
  ◌≤◌, ◌<◌, String, ◌≡◌, ◌↔◌, refl, true, false, ◌&&◌, not, Option, none, some, List, [], ◌∷◌, ◌==◌,
  if◌then◌else◌, mem, distinct, all, map, length, ok,
}
use deepswe_eval_lab.Base.Dict
use deepswe_eval_lab.Base.Rat.{of_nat}
use deepswe_eval_lab.Base.Text.{strip, splitlines}
use deepswe_eval_lab.Base.Json.{Json, str, arr, obj, nil, cons, end, field}
use deepswe_eval_lab.Grader.Status.{failed}
use deepswe_eval_lab.Grader.Reports.{TestCase, ctrf_tests, ctrf_case, parse_ctrf}
use deepswe_eval_lab.Grader.Score.{Config, Outcome, load_ids, cmd_grade}
use deepswe_eval_lab.Grader.Merge.{keep_some, worst, cases_of}
use deepswe_eval_lab.Grader.Verdict.{solved, expected, cases_at, cmd_grade-expected}
use deepswe_eval_lab.Grader.Whitelist.{mem-load_ids, load_ids-distinct}
use deepswe_eval_lab.Grader.Messages.{first_message, parse_ctrf-summary}
use deepswe_eval_lab.Grader.Order.{cmd_grade-perm}
use deepswe_eval_lab.Grader.Limits.{cmd_grade-reward_iff, cmd_grade_bounds}
use deepswe_eval_lab.Grader.Patch.{path_of, is_path, patch_paths}
use deepswe_eval_lab.Grader.Patch.Paths.{mem-patch_paths, patch_paths-distinct}
use deepswe_eval_lab.Grader.Prepare.{apply_model, Host, Input, cmd_prepare}
use deepswe_eval_lab.Grader.Prepare.Effects.{is_some, cmd_prepare-reward}

abbrev test_named : String → String → String → Json
test_named name status message =
    obj (field "name" (str name) (field "status" (str status) (field "message" (str message) end)))

-- "b" fails once and passes once.
abbrev report : Json
report = obj (
    field "results"
      (obj (
        field "tests"
          (arr (
            cons (test_named "a" "passed" "")
              (cons (test_named " b " "Failed" "boom") (cons (test_named "b" "passed" "") nil))))
          end))
      end)

abbrev other_report : Json
other_report = obj (
    field "results"
      (obj (
        field "tests"
          (arr (cons (test_named "c" "pending" "later") (cons (test_named "a" "passed" "") nil)))
          end))
      end)

abbrev show : Json → String
show x = "?"

abbrev load_json : String → Option Json
load_json path =
    if path == "one" then some report else if path == "two" then some other_report else none

abbrev load_xml : String → Option (List TestCase)
load_xml path = none

abbrev config : Config
config = record {
  base_commit = "abc";
  p2p_node_ids = "a" ∷ " a " ∷ [];
  f2p_node_ids = "b" ∷ "" ∷ "d" ∷ [];
  format = none;
  node_id = none;
  tool_label = none;
  reports = some ("one" ∷ "two" ∷ []);
}

abbrev no_outcome : Outcome
no_outcome = record {
  reward_json = record {
    reward = 7;
    f2p_total = 0;
    f2p_passed = 0;
    p2p_total = 0;
    p2p_passed = 0;
    f2p = of_nat 0;
    p2p = of_nat 0;
    partial = of_nat 0;
    apply_failed = true;
  };
  ctrf_json = none;
}

-- The run with the reports in a given order; "a" passes, "b" fails and "d" is missing.
outcome : List String → Outcome
unfolding cmd_grade
outcome reps = elim (cmd_grade show load_json load_xml (record config { reports = some reps }) []) [
  | ok out ↦ out
  | _ ↦ no_outcome
]

counts_test :
    let r = (outcome ("one" ∷ "two" ∷ [])).reward_json in
    (r.reward ≡ 0) × (r.f2p_passed ≡ 0) × (r.p2p_passed ≡ 1) × (r.f2p_total ≡ 2)
unfolding outcome
counts_test = (refl, refl, refl, refl)

runs : cmd_grade show load_json load_xml config [] ≡ ok (outcome ("one" ∷ "two" ∷ []))
unfolding outcome
runs = refl

runs_swapped :
    cmd_grade show load_json load_xml (record config { reports = some ("two" ∷ "one" ∷ []) }) []
    ≡ ok (outcome ("two" ∷ "one" ∷ []))
unfolding outcome
runs_swapped = refl

cmd_grade-expected_example :
    (out : Outcome) × (cmd_grade show load_json load_xml config [] ≡ ok out)
    × (out.reward_json
        ≡ expected config (cases_of (cases_at show load_json load_xml config) ("one" ∷ "two" ∷ [])))
cmd_grade-expected_example =
    cmd_grade-expected show load_json load_xml config [] ("one" ∷ "two" ∷ []) refl refl refl

cmd_grade-reward_iff_example :
    let cs = cases_of (cases_at show load_json load_xml config) ("one" ∷ "two" ∷ []) in
    ((outcome ("one" ∷ "two" ∷ [])).reward_json.reward ≡ 1) ↔ (
      (0 < length (load_ids config.f2p_node_ids))
      × (all (solved cs) (load_ids config.f2p_node_ids) ≡ true)
      × (all (solved cs) (load_ids config.p2p_node_ids) ≡ true))
cmd_grade-reward_iff_example =
    cmd_grade-reward_iff show load_json load_xml config [] ("one" ∷ "two" ∷ [])
      (outcome ("one" ∷ "two" ∷ [])) refl refl refl runs

cmd_grade-perm_example :
    (outcome ("one" ∷ "two" ∷ [])).reward_json ≡ (outcome ("two" ∷ "one" ∷ [])).reward_json
cmd_grade-perm_example =
    cmd_grade-perm show load_json load_xml config [] ("one" ∷ "two" ∷ []) ("two" ∷ "one" ∷ [])
      (outcome ("one" ∷ "two" ∷ [])) (outcome ("two" ∷ "one" ∷ [])) refl refl
      (Perm.swap "two" "one" []) runs runs_swapped

cmd_grade_bounds_example :
    let r = (outcome ("one" ∷ "two" ∷ [])).reward_json in
    (r.reward ≤ 1) × (r.f2p_passed ≤ r.f2p_total) × (r.p2p_passed ≤ r.p2p_total)
cmd_grade_bounds_example =
    cmd_grade_bounds show load_json load_xml config [] (outcome ("one" ∷ "two" ∷ [])) runs

mem-load_ids_example :
    mem "a" (load_ids (" a " ∷ "" ∷ "a" ∷ []))
    ≡ (not ("a" == "") && mem "a" (map strip (" a " ∷ "" ∷ "a" ∷ [])))
mem-load_ids_example = mem-load_ids "a" (" a " ∷ "" ∷ "a" ∷ [])

load_ids-distinct_example : distinct (load_ids (" a " ∷ "" ∷ "a" ∷ [])) ≡ true
load_ids-distinct_example = load_ids-distinct (" a " ∷ "" ∷ "a" ∷ [])

parse_ctrf-summary_example :
    Dict.get "b" (parse_ctrf show false (some report))
    ≡ some (record { status = failed; message = "boom" })
unfolding ctrf_tests ctrf_case keep_some first_message worst
parse_ctrf-summary_example = parse_ctrf-summary show false (some report) "b"

abbrev diff : String
diff = "diff --git a/f b/f\n--- a/f\n+++ b/f\n"

mem-patch_paths_example :
    mem "f" (patch_paths diff) ≡ (is_path "f" && mem "f" (map path_of (splitlines diff)))
mem-patch_paths_example = mem-patch_paths "f" diff

patch_paths-distinct_example : distinct (patch_paths diff) ≡ true
patch_paths-distinct_example = patch_paths-distinct diff

-- A host on which every git command succeeds but `git apply` of model.patch.
abbrev host : Host
host = record { returncode = λ log e. elim e [ apply_model ↦ 1 | _ ↦ 0 ]; exists = λ log f. false }

abbrev input : Input
input = record { app_is_dir = true; model_patch = some diff; test_patch = diff }

cmd_prepare-reward_example : is_some (cmd_prepare host config input).reward_json ≡ true
cmd_prepare-reward_example = cmd_prepare-reward host config input
