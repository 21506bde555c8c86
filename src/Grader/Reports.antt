-- ===== src/Grader/Reports.antt =====
-- grader.py: the two report parsers. A report file is given by what the JSON or XML reader makes of
-- it, and `none` where reading or parsing raises.
use deepswe_eval_lab.Base.{
  String, ◌<>◌, Bool, ◌&&◌, ◌||◌, not, Option, none, some, List, [], ◌∷◌, ◌==◌, if◌then◌else◌,
}
use deepswe_eval_lab.Base.Text.{strip, after_last}
use deepswe_eval_lab.Base.Json
use deepswe_eval_lab.Base.Json.{
  Json, null, bool, int, float, nonfinite, str, arr, obj, cons, nil, end, truthy, or_else, to_list,
}
use deepswe_eval_lab.Grader.Status.{
  Status, passed, skipped, failed, is_passed, Case, Results, norm_status, add, text_of,
  text_or_empty,
}

-- `[]` where the report has no list of tests, or where a lookup on the way raises.
tests_of : Json → List Json
unfolding truthy to_list
tests_of x = elim (or_else x (arr nil)) [ arr items ↦ to_list items | _ ↦ [] ]

tests_in_results : Json → List Json
unfolding truthy tests_of Json.get
tests_in_results x = elim (or_else x (obj end)) [ obj fs ↦ tests_of (Json.get "tests" fs) | _ ↦ [] ]

unfoldable pub ctrf_tests : Option Json → List Json
unfolding tests_in_results Json.get
ctrf_tests none = []
ctrf_tests (some (obj fs)) = tests_in_results (Json.get "results" fs)
ctrf_tests (some _) = []

-- `suite`, which reporters write as a text or as a list of texts.
pub suite_of : (Json → String) → Json → String
unfolding strip
suite_of show (arr (cons x xs)) = strip (text_of show x)
suite_of show (str s) = strip s
suite_of show _ = ""

-- The id of a test in a suite; `by_suite` says that the configured `node_id` is "suite.name".
pub ctrf_node_id : Bool → String → String → String
ctrf_node_id by_suite su nm = if by_suite && not (su == "") then su <> "." <> nm else nm

-- The body of the loop of `parse_ctrf`: what it adds, or `none` where it goes on.
unfoldable pub ctrf_case : (Json → String) → Bool → Json → Option Case
unfolding strip Json.get truthy suite_of ctrf_node_id norm_status
ctrf_case show by_suite (obj tc) =
    let nm = strip (text_or_empty show (Json.get "name" tc)) in
    let st = norm_status show (Json.get "status" tc) in
    if nm == ""
    then none
    else some (record {
      node_id = ctrf_node_id by_suite (suite_of show (Json.get "suite" tc)) nm;
      status = st;
      message =
          if is_passed st
          then ""
          else strip (text_or_empty show (or_else (Json.get "message" tc) (Json.get "trace" tc)));
    })
ctrf_case show by_suite _ = none

-- The effect of one round of a parser's loop.
abbrev pub add_case : Results → Option Case → Results
add_case res none = res
add_case res (some c) = add res c.node_id c.status c.message

unfoldable pub ctrf_loop : (Json → String) → Bool → Results → List Json → Results
ctrf_loop show by_suite res [] = res
ctrf_loop show by_suite res (tc ∷ rest) =
    ctrf_loop show by_suite (add_case res (ctrf_case show by_suite tc)) rest

unfoldable pub parse_ctrf : (Json → String) → Bool → Option Json → Results
unfolding ctrf_loop ctrf_tests ctrf_case add
parse_ctrf show by_suite doc = ctrf_loop show by_suite [] (ctrf_tests doc)

-- A child element of a JUnit test case. `tag` may carry a namespace, `{uri}failure`.
pub record Child : Type 0 where
  pub tag : String
  pub message : Option String
  pub text : Option String

pub record TestCase : Type 0 where
  pub classname : Option String
  pub name : Option String
  pub children : List Child

abbrev or_empty : Option String → String
or_empty none = ""
or_empty (some s) = s

-- `"\n".join(p for p in parts if p).strip()` of two parts.
join_parts : String → String → String
unfolding strip
join_parts a b = strip (if a == "" then b else if b == "" then a else a <> "\n" <> b)

-- The loop of `junit_status_msg`, with the status found so far.
status_loop : Status → List Child → Status × String
unfolding after_last strip join_parts
status_loop st [] = (st, "")
status_loop st (ch ∷ rest) =
    let tag = after_last b'}' ch.tag ch.tag in
    let later = status_loop (if tag == "skipped" then skipped else st) rest in
    if tag == "failure" || tag == "error"
    then (failed, join_parts (strip (or_empty ch.message)) (strip (or_empty ch.text)))
    else later

unfoldable pub junit_status_msg : TestCase → Status × String
unfolding status_loop
junit_status_msg tc = status_loop passed tc.children

unfoldable pub junit_case : TestCase → Option Case
unfolding strip junit_status_msg
junit_case tc =
    let cn = strip (or_empty tc.classname) in
    let nm = strip (or_empty tc.name) in
    let (st, msg) = junit_status_msg tc in
    if nm == ""
    then none
    else some
        (record { node_id = if cn == "" then nm else cn <> "." <> nm; status = st; message = msg })

unfoldable pub junit_loop : Results → List TestCase → Results
junit_loop res [] = res
junit_loop res (tc ∷ rest) = junit_loop (add_case res (junit_case tc)) rest

abbrev pub junit_tests : Option (List TestCase) → List TestCase
junit_tests none = []
junit_tests (some tests) = tests

unfoldable pub parse_junit : Option (List TestCase) → Results
unfolding junit_loop junit_case add
parse_junit doc = junit_loop [] (junit_tests doc)
