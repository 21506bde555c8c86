-- ===== src/Eval/Launcher/Tasks.antt =====
-- agent_eval/tasks.py: the tasks of a job and their common timeout.
pub mod Chosen
pub mod Timeout
use Prim.Native.Char.{code}
use Prim.Native.String
use deepswe_eval_lab.Base.{
  ℕ, String, Bool, true, false, not, ◌&&◌, ◌||◌, Option, none, some, List, [], ◌∷◌, ◌++◌, ◌==◌,
  if◌then◌else◌, eqb, leb, mem, map, any, keep, is_empty, starts_with, Result, ok, err, ◌>>=◌, ◌>>◌,
  reject,
}
use deepswe_eval_lab.Base.Int.{pos}
use deepswe_eval_lab.Base.Rat
use deepswe_eval_lab.Base.Rat.{Rat}
use deepswe_eval_lab.Base.Dict
use deepswe_eval_lab.Base.Dict.{Dict}
use deepswe_eval_lab.Base.Json.{Json, null, bool, int, float, Fields, as_dict}
use deepswe_eval_lab.Base.Json
use deepswe_eval_lab.Base.Text.{strip, lstrip}

pub data TaskSelectionError : Type 0 where
  list_not_found : (path : String) → TaskSelectionError
  no_tasks : TaskSelectionError
  invalid_name not_a_task no_timeout : (name : String) → TaskSelectionError
  different_timeouts : Dict Rat → TaskSelectionError

-- `_SAFE_TASK_NAME`
abbrev is_letter_or_digit : ℕ → Bool
is_letter_or_digit c =
    leb b'0' c && leb c b'9' || leb b'A' c && leb c b'Z' || leb b'a' c && leb c b'z'

abbrev is_name_char : ℕ → Bool
is_name_char c = is_letter_or_digit c || eqb c b'.' || eqb c b'_' || eqb c b'-'

unfoldable pub name_chars : String → Bool
name_chars String.[] = true
name_chars (String.◌∷◌ c s) = is_name_char (code c) && name_chars s

unfoldable pub safe_task_name : String → Bool
safe_task_name String.[] = false
safe_task_name (String.◌∷◌ c s) = is_letter_or_digit (code c) && name_chars s

abbrev is_entry : String → Bool
is_entry line = not (strip line == "") && not (starts_with (lstrip line) "#")

-- The lines of a file, or nothing where it does not exist.
unfoldable pub read_task_list :
    (String → Option (List String)) → String → Result TaskSelectionError (List String)
read_task_list lines_of path = elim (lines_of path) [
  | none ↦ err (list_not_found path)
  | some lines ↦ ok (map strip (keep is_entry lines))
]

unfoldable pub extend_names :
    (String → Option (List String))
    → List String
    → List String
    → Result TaskSelectionError (List String)
extend_names lines_of names [] = ok names
extend_names lines_of names (path ∷ paths) =
    read_task_list lines_of path >>= λ listed. extend_names lines_of (names ++ listed) paths

-- `list(dict.fromkeys(names))`, after the names in `out`.
unfoldable pub from_keys : List String → List String → List String
from_keys out [] = out
from_keys out (name ∷ names) = from_keys (if mem name out then out else out ++ name ∷ []) names

unfoldable pub check_names : (String → Bool) → List String → Result TaskSelectionError (Unit {0})
check_names has_task [] = ok tt
check_names has_task (name ∷ names) = do
  reject (not (safe_task_name name)) (invalid_name name)
  reject (not (has_task name)) (not_a_task name)
  check_names has_task names

-- `has_task` says that a task's `task.toml` is a file.
unfoldable pub resolve_tasks :
    (String → Option (List String))
    → (String → Bool)
    → List String
    → List String
    → Result TaskSelectionError (List String)
resolve_tasks lines_of has_task explicit task_lists = do
  all_names ← extend_names lines_of explicit task_lists
  let names = from_keys [] all_names
  reject (is_empty names) no_tasks
  check_names has_task names
  ok names

-- `float(value)` of a positive number. A bool is an int.
unfoldable pub positive : Json → Option Rat
positive (int n) = if Rat.lt (Rat.of_nat 0) (Rat.of_int n) then some (Rat.of_int n) else none
positive (float x) = if Rat.lt (Rat.of_nat 0) x then some x else none
positive (bool true) = some (Rat.of_nat 1)
positive _ = none

abbrev timeout_value : Option Fields → Json
timeout_value none = null
timeout_value (some agent) = Json.get "timeout_sec" agent

-- `agent.timeout_sec` of a parsed `task.toml`, whose numbers are finite.
unfoldable pub agent_timeout : Fields → Option Rat
agent_timeout raw = positive (timeout_value (as_dict (Json.get "agent" raw)))

abbrev pub required : Option Rat → TaskSelectionError → Result TaskSelectionError Rat
required none e = err e
required (some value) e = ok value

-- `toml` is the parsed `task.toml` of a task.
unfoldable pub timeouts_of :
    (String → Fields) → Dict Rat → List String → Result TaskSelectionError (Dict Rat)
timeouts_of toml timeouts [] = ok timeouts
timeouts_of toml timeouts (name ∷ names) =
    required (agent_timeout (toml name)) (no_timeout name) >>= λ value.
    timeouts_of toml (Dict.insert name value timeouts) names

-- `set(timeouts.values())`, in the order of the dict: only a set of one value is read.
unfoldable pub distinct_values : List Rat → Dict Rat → List Rat
distinct_values seen [] = seen
distinct_values seen ((name, value) ∷ timeouts) =
    distinct_values (if any (Rat.eq value) seen then seen else seen ++ value ∷ []) timeouts

abbrev pub single : Dict Rat → List Rat → Result TaskSelectionError Rat
single timeouts (value ∷ []) = ok value
single timeouts _ = err (different_timeouts timeouts)

unfoldable pub common_agent_timeout :
    (String → Fields) → List String → Result TaskSelectionError Rat
common_agent_timeout toml names = do
  timeouts ← timeouts_of toml [] names
  single timeouts (distinct_values [] timeouts)
