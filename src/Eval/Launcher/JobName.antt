-- ===== src/Eval/Launcher/JobName.antt =====
-- agent_eval/cli.py: the names of jobs.
pub mod Labels
pub mod Valid
use Prim.Native.Char.{Char, code}
use Prim.Native.String.{String}
use deepswe_eval_lab.Base.{
  ℕ, zero, suc, ◌+◌, ◌-◌, ◌<>◌, Bool, true, false, not, ◌&&◌, ◌||◌, Option, none, some, List, [],
  ◌∷◌, ◌==◌, if◌then◌else◌, eqb, leb, ltb, length, mem, Result, ok, err, ◌>>=◌, ◌>>◌, reject,
}

-- `len(s)`, in characters.
unfoldable pub char_count : String → ℕ
char_count String.[] = 0
char_count (String.◌∷◌ c s) = suc (char_count s)

-- `s[:n]`
unfoldable pub take_chars : ℕ → String → String
take_chars zero s = ""
take_chars (suc n) String.[] = ""
take_chars (suc n) (String.◌∷◌ c s) = String.◌∷◌ c (take_chars n s)

-- One of ".", "_" and "-".
abbrev pub is_separator : ℕ → Bool
is_separator c = eqb c 46 || eqb c 95 || eqb c 45

-- `s.lstrip("._-")`, `s.rstrip("._-")` and `s.strip("._-")`.
unfoldable pub lstrip_separators : String → String
lstrip_separators String.[] = ""
lstrip_separators (String.◌∷◌ c s) =
    let rest = lstrip_separators s in if is_separator (code c) then rest else String.◌∷◌ c s

unfoldable pub rstrip_separators : String → String
rstrip_separators String.[] = ""
rstrip_separators (String.◌∷◌ c s) =
    let rest = rstrip_separators s in
    if is_separator (code c) && rest == "" then "" else String.◌∷◌ c rest

unfoldable pub strip_separators : String → String
strip_separators s = rstrip_separators (lstrip_separators s)

-- `label.replace("--", "-")`, one pass from the left; `dash` says that a dash waits for the next one.
unfoldable pub replace_dashes : Bool → String → String
replace_dashes true String.[] = "-"
replace_dashes false String.[] = ""
replace_dashes true (String.◌∷◌ c s) =
    let closed = replace_dashes false s in
    if eqb (code c) 45 then String.◌∷◌ "-" closed else String.◌∷◌ "-" (String.◌∷◌ c closed)
replace_dashes false (String.◌∷◌ c s) =
    let waiting = replace_dashes true s in
    let rest = replace_dashes false s in if eqb (code c) 45 then waiting else String.◌∷◌ c rest

-- `"--" in label`; `dash` says that the character before was a dash.
unfoldable pub has_double_dash : Bool → String → Bool
has_double_dash dash String.[] = false
has_double_dash dash (String.◌∷◌ c s) =
    let rest = has_double_dash (eqb (code c) 45) s in dash && eqb (code c) 45 || rest

-- `while "--" in label: label = label.replace("--", "-")`; `none` means that the fuel ran out.
unfoldable pub collapse : ℕ → String → Option String
collapse zero label = none
collapse (suc fuel) label =
    let rest = collapse fuel (replace_dashes false label) in
    if has_double_dash false label then rest else some label

pub data JobNameError : Type 0 where
  unsafe_name dots_only too_long : JobNameError

-- `is_alnum` is Python's `str.isalnum` on one character.
module _ (is_alnum : ℕ → Bool) where
  abbrev pub is_safe : ℕ → Bool
  is_safe c = is_alnum c || is_separator c

  unfoldable pub safe_job_component : String → String
  safe_job_component String.[] = ""
  safe_job_component (String.◌∷◌ c s) =
      if is_safe (code c)
      then String.◌∷◌ c (safe_job_component s)
      else String.◌∷◌ "-" (safe_job_component s)

  -- `_task_list_label`, of the name of a file without its suffix, with the fuel of its loop.
  unfoldable pub task_list_label : String → Option String
  task_list_label stem =
      let label = strip_separators (safe_job_component stem) in
      elim (collapse (suc (char_count label)) label) [
        | none ↦ none
        | some s ↦ if s == "" then some "task-list" else some s
      ]

  unfoldable pub validate_explicit_job_name : String → Result JobNameError (Unit {0})
  validate_explicit_job_name name = do
    reject (name == "" || not (safe_job_component name == name)) unsafe_name
    reject (name == "." || name == "..") dots_only
    reject (ltb 200 (char_count name)) too_long

  -- `hexdigest` is that of the digest of a text.
  unfoldable pub shorten_generated_job_name : (String → String) → String → String → String
  shorten_generated_job_name hexdigest base timestamp =
      let available = 200 - char_count timestamp - 1 in
      let digest = take_chars 8 (hexdigest base) in
      if leb (char_count base) available
      then base <> "-" <> timestamp
      else rstrip_separators (take_chars (available - char_count digest - 1) base)
        <> "-"
        <> digest
        <> "-"
        <> timestamp

  abbrev join_and : List String → String
  join_and [] = ""
  join_and (s ∷ []) = s
  join_and (s ∷ t ∷ rest) = s <> "-and-" <> join_and (t ∷ rest)

  abbrev task_scope : (ℕ → String) → List String → String
  task_scope show_nat (t ∷ []) = t
  task_scope show_nat tasks = show_nat (length tasks) <> "-tasks"

  abbrev scope_of : String → List String → String
  scope_of task [] = task
  scope_of task labels = join_and labels <> "-" <> task

  abbrev nonempty : Option String → Bool
  nonempty none = false
  nonempty (some s) = not (s == "")

  abbrev text_or_empty : Option String → String
  text_or_empty none = ""
  text_or_empty (some s) = s

  abbrev agent_label : String → Option String → Option String → String
  agent_label agent modifier reviewer =
      if agent == "collab" && (nonempty modifier && nonempty reviewer)
      then agent <> "-" <> text_or_empty modifier <> "-" <> text_or_empty reviewer
      else agent

  -- `_default_job_name`, with the distinct labels of the task lists and the time.
  unfoldable pub default_job_name :
      (ℕ → String)
      → (String → String)
      → String
      → String
      → List String
      → List String
      → Option String
      → Option String
      → String
  default_job_name show_nat hexdigest timestamp agent tasks labels modifier reviewer =
      let base = safe_job_component (
        agent_label agent modifier reviewer
        <> "-"
        <> scope_of (task_scope show_nat tasks) labels) in
      shorten_generated_job_name hexdigest (strip_separators base) timestamp
