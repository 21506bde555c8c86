-- ===== src/Eval/Launcher/Tests.antt =====
-- Runs of the launcher's helpers at concrete inputs.
use deepswe_eval_lab.Base.{
  ℕ, ◌≤◌, ◌≡◌, refl, String, Bool, true, false, ◌||◌, ◌&&◌, ◌==◌, Option, none, some, List, [], ◌∷◌,
  leb, eqb, arith, ok, if◌then◌else◌,
}
use deepswe_eval_lab.Base.Int.{pos}
use deepswe_eval_lab.Base.Rat
use deepswe_eval_lab.Base.Rat.{Rat}
use deepswe_eval_lab.Base.Json.{Fields, int, obj, field, end}
use deepswe_eval_lab.Base.Json
use deepswe_eval_lab.Base.Text
use deepswe_eval_lab.Base.Dict
use deepswe_eval_lab.Eval.Launcher.Redact.{redact_args}
use deepswe_eval_lab.Eval.Launcher.Redact
use deepswe_eval_lab.Eval.Launcher.Redact.Secrets.{
  DifferInSecrets, done, assignment, joined, joined_bare, flag, plain, redact_args-DifferInSecrets,
}
use deepswe_eval_lab.Eval.Launcher.JobName.{
  task_list_label, has_double_dash, validate_explicit_job_name, default_job_name,
}
use deepswe_eval_lab.Eval.Launcher.JobName
use deepswe_eval_lab.Eval.Launcher.JobName.Labels.{task_list_label_total}
use deepswe_eval_lab.Eval.Launcher.JobName.Valid.{
  all_safe, default_job_name-validate_explicit_job_name,
}
use deepswe_eval_lab.Eval.Launcher.Tasks.{resolve_tasks}
use deepswe_eval_lab.Eval.Launcher.Tasks
use deepswe_eval_lab.Eval.Launcher.Tasks.Chosen.{IsSelection, resolve_tasks-IsSelection}

redact_run :
    redact_args ("--ae" ∷ "KEY=s1" ∷ "--ve=TOKEN=s2" ∷ "--ae=s3" ∷ "run" ∷ [])
    ≡ "--ae" ∷ "KEY=<redacted>" ∷ "--ve=TOKEN=<redacted>" ∷ "--ae=<redacted>" ∷ "run" ∷ []
unfolding redact_args Redact.redact_loop Redact.redact_value Redact.matched_flag Redact.has_flag
    Redact.redact_assignment Redact.partition Text.remove_prefix
redact_run = refl

two_lines :
    DifferInSecrets false
      ("--ae" ∷ "KEY=s1" ∷ "--ve=TOKEN=s2" ∷ "--ae=s3" ∷ "run" ∷ [])
      ("--ae" ∷ "KEY=t1" ∷ "--ve=TOKEN=t2" ∷ "--ae=t3" ∷ "run" ∷ [])
unfolding Redact.partition
two_lines = flag "--ae" refl (
    assignment "KEY" "s1" "t1" refl (
      joined "--ve" "TOKEN" "s2" "t2" refl refl
        (joined_bare "--ae" "s3" "t3" refl refl refl (plain "run" refl (done false)))))

redact_args-DifferInSecrets_example :
    redact_args ("--ae" ∷ "KEY=s1" ∷ "--ve=TOKEN=s2" ∷ "--ae=s3" ∷ "run" ∷ [])
    ≡ redact_args ("--ae" ∷ "KEY=t1" ∷ "--ve=TOKEN=t2" ∷ "--ae=t3" ∷ "run" ∷ [])
redact_args-DifferInSecrets_example = redact_args-DifferInSecrets _ _ two_lines

abbrev ascii_alnum : ℕ → Bool
ascii_alnum c = leb b'0' c && leb c b'9' || leb b'A' c && leb c b'Z' || leb b'a' c && leb c b'z'

label_run : task_list_label ascii_alnum "-Core tasks / v2." ≡ some "Core-tasks-v2"
unfolding task_list_label JobName.safe_job_component JobName.strip_separators
    JobName.lstrip_separators JobName.rstrip_separators JobName.collapse JobName.replace_dashes
    has_double_dash JobName.char_count
label_run = refl

task_list_label_total_example :
    (label : String) × (task_list_label ascii_alnum "-Core tasks / v2." ≡ some label)
    × (has_double_dash false label ≡ false)
    × ((label == "") ≡ false)
task_list_label_total_example = task_list_label_total ascii_alnum "-Core tasks / v2."

abbrev show_count : ℕ → String
show_count n = if eqb n 2 then "2" else "many"

abbrev digest_of : String → String
digest_of base = "0123456789abcdef"

digest_of_safe : (base : String) → all_safe ascii_alnum (digest_of base) ≡ true
unfolding all_safe
digest_of_safe base = refl

time_safe : all_safe ascii_alnum "20260101-000000" ≡ true
unfolding all_safe
time_safe = refl

time_long : 2 ≤ JobName.char_count "20260101-000000"
unfolding JobName.char_count
time_long = omega arith

time_short : JobName.char_count "20260101-000000" ≤ 100
unfolding JobName.char_count
time_short = omega arith

abbrev job_name : String
job_name =
    default_job_name ascii_alnum show_count digest_of "20260101-000000" "collab" ("a" ∷ "b" ∷ [])
      ("core" ∷ []) (some "claude opus") (some "codex")

job_name_run : job_name ≡ "collab-claude-opus-codex-core-2-tasks-20260101-000000"
unfolding default_job_name JobName.shorten_generated_job_name JobName.safe_job_component
    JobName.strip_separators JobName.lstrip_separators JobName.rstrip_separators JobName.char_count
job_name_run = refl

default_job_name-validate_explicit_job_name_example :
    validate_explicit_job_name ascii_alnum job_name ≡ ok tt
default_job_name-validate_explicit_job_name_example =
    default_job_name-validate_explicit_job_name ascii_alnum show_count digest_of "20260101-000000"
      "collab" ("a" ∷ "b" ∷ []) ("core" ∷ []) (some "claude opus") (some "codex") digest_of_safe
      time_safe time_long time_short

abbrev lists : String → Option (List String)
lists path = if path == "core.txt" then some ("# core" ∷ " b " ∷ "" ∷ "a" ∷ []) else none

abbrev has_task : String → Bool
has_task name = name == "a" || name == "b"

tasks_run : resolve_tasks lists has_task ("a" ∷ []) ("core.txt" ∷ []) ≡ ok ("a" ∷ "b" ∷ [])
unfolding resolve_tasks Tasks.extend_names Tasks.read_task_list Tasks.from_keys Tasks.check_names
    Tasks.safe_task_name Tasks.name_chars Text.strip Text.lstrip Text.rstrip Text.is_space
tasks_run = refl

resolve_tasks-IsSelection_example :
    IsSelection lists has_task ("a" ∷ []) ("core.txt" ∷ []) ("a" ∷ "b" ∷ [])
resolve_tasks-IsSelection_example =
    resolve_tasks-IsSelection lists has_task ("a" ∷ []) ("core.txt" ∷ []) ("a" ∷ "b" ∷ []) tasks_run

abbrev toml_of : String → Fields
toml_of name = field "agent" (obj (field "timeout_sec" (int (pos 3600)) end)) end
