-- ===== src/Grader/Status.antt =====
-- grader.py: test statuses and the worst-status-wins merge of test results.
use deepswe_eval_lab.Base.{
  ℕ, String, Bool, true, false, ◌&&◌, ◌||◌, not, Option, none, some, ◌==◌, ltb, eqb, if◌then◌else◌,
}
use deepswe_eval_lab.Base.Dict
use deepswe_eval_lab.Base.Dict.{Dict}
use deepswe_eval_lab.Base.Text.{strip, lower_is}
use deepswe_eval_lab.Base.Json.{Json, str, truthy, or_else}

pub data Status : Type 0 where
  passed skipped failed : Status

-- `RANK`
abbrev pub rank : Status → ℕ
rank passed = 0
rank skipped = 1
rank failed = 2

abbrev pub is_passed : Status → Bool
is_passed passed = true
is_passed _ = false

-- A value of the results: `(status, message)`.
pub record Entry : Type 0 where
  pub status : Status
  pub message : String

abbrev pub Results : Type 0
Results = Dict Entry

-- One test case of a report: the arguments of a call of `add`.
pub record Case : Type 0 where
  pub node_id : String
  pub status : Status
  pub message : String

-- `str(x)`: a text is itself, and `show` is Python's `str` of the other values.
abbrev pub text_of : (Json → String) → Json → String
text_of show (str s) = s
text_of show x = show x

-- `str(x or "")`
abbrev pub text_or_empty : (Json → String) → Json → String
text_or_empty show x = text_of show (or_else x (str ""))

unfoldable pub norm_status : (Json → String) → Json → Status
unfolding truthy lower_is strip
norm_status show x =
    let raw = strip (text_or_empty show x) in
    if lower_is raw "passed"
    then passed
    else if lower_is raw "skipped" || lower_is raw "pending" || lower_is raw "other"
    then skipped
    else failed

-- The message that a new entry keeps.
abbrev pub kept_message : Status → String → String
kept_message st msg = if is_passed st then "" else msg

-- What `add` stores under its id, from the entry that is there; `none` where it stores nothing.
abbrev pub replacement : Option Entry → Status → String → Option Entry
replacement none st msg = some (record { status = st; message = kept_message st msg })
replacement (some cur) st msg =
    if ltb (rank cur.status) (rank st)
    then some (record { status = st; message = kept_message st msg })
    else if eqb (rank st) (rank cur.status)
        && (not (is_passed st) && (cur.message == "" && not (msg == "")))
    then some (record { status = st; message = msg })
    else none

abbrev pub store : Results → String → Option Entry → Results
store res nid none = res
store res nid (some e) = Dict.insert nid e res

unfoldable pub add : Results → String → Status → String → Results
unfolding Dict.get Dict.insert
add res nid st msg = store res nid (replacement (Dict.get nid res) st msg)
