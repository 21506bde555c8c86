-- ===== src/Grader/Score.antt =====
-- grader.py: the whitelists, the two buckets and `cmd_grade`.
use deepswe_eval_lab.Base.{
  ℕ, ◌+◌, String, ◌<>◌, Bool, true, false, ◌&&◌, ◌||◌, Option, none, some, List, [], ◌∷◌, ◌++◌, map,
  ◌==◌, ltb, eqb, length, mem, Result, ok, err, ◌>>=◌, if◌then◌else◌,
}
use deepswe_eval_lab.Base.Dict
use deepswe_eval_lab.Base.Int.{pos}
use deepswe_eval_lab.Base.Rat
use deepswe_eval_lab.Base.Rat.{Rat}
use deepswe_eval_lab.Base.Text.{strip}
use deepswe_eval_lab.Base.Json.{Json}
use deepswe_eval_lab.Grader.Status.{Status, failed, is_passed, Entry, Results, add}
use deepswe_eval_lab.Grader.Reports.{TestCase, parse_ctrf, parse_junit}

-- config.json: the whitelists, and the keys under "grade".
pub record Config : Type 0 where
  pub base_commit : String
  pub p2p_node_ids : List String
  pub f2p_node_ids : List String
  pub format : Option String
  pub node_id : Option String
  pub tool_label : Option String
  pub reports : Option (List String)

-- A `KeyError`, with the key that is missing.
pub data GradeError : Type 0 where
  key_error : String → GradeError

-- The loop of `load_ids`. `seen` and `ids` hold the same texts.
unfoldable pub ids_loop : List String → List String → List String
unfolding strip
ids_loop ids [] = ids
ids_loop ids (line ∷ rest) =
    let s = strip line in ids_loop (if s == "" || mem s ids then ids else ids ++ s ∷ []) rest

unfoldable pub load_ids : List String → List String
unfolding ids_loop
load_ids lines = ids_loop [] lines

-- `a / b if b else default`
abbrev ratio : ℕ → ℕ → ℕ → Rat
ratio a b default = if eqb b 0 then Rat.of_nat default else record { num = pos a; den = b }

-- reward.json
pub record Reward : Type 0 where
  pub reward : ℕ
  pub f2p_total : ℕ
  pub f2p_passed : ℕ
  pub p2p_total : ℕ
  pub p2p_passed : ℕ
  pub f2p : Rat
  pub p2p : Rat
  pub partial : Rat
  pub apply_failed : Bool

-- `{"reward": reward, **stats(fp, pp)}`
unfoldable pub stats : List String → List String → ℕ → Bool → ℕ → ℕ → Reward
stats f2p p2p reward apply_failed fp pp = record {
  reward = reward;
  f2p_total = length f2p;
  f2p_passed = fp;
  p2p_total = length p2p;
  p2p_passed = pp;
  f2p = ratio fp (length f2p) 0;
  p2p = ratio pp (length p2p) 1;
  partial = ratio (fp + pp) (length f2p + length p2p) 0;
  apply_failed = apply_failed;
}

-- A row of ctrf.json; a passed row of a bucket has no message.
pub record Row : Type 0 where
  pub name : String
  pub status : Status
  pub message : Option String

abbrev pub missing_message : String
missing_message = "missing from report (test did not run or produced no result — see raw output)"

pub record Bucket : Type 0 where
  pub p : ℕ
  pub f : ℕ
  pub rows : List Row

-- The row of one whitelisted id, from its entry.
abbrev pub row_of : String → Option Entry → Row
row_of nid none = record { name = nid; status = failed; message = some missing_message }
row_of nid (some e) = record {
  name = nid;
  status = e.status;
  message = if is_passed e.status then none else some e.message;
}

-- One round of the loop of `bucket`.
abbrev pub count_row : Bucket → Row → Bucket
count_row b r =
    if is_passed r.status
    then record { p = b.p + 1; f = b.f; rows = b.rows ++ r ∷ [] }
    else record { p = b.p; f = b.f + 1; rows = b.rows ++ r ∷ [] }

unfoldable pub bucket_loop : Results → Bucket → List String → Bucket
unfolding Dict.get
bucket_loop seen b [] = b
bucket_loop seen b (nid ∷ ids) = bucket_loop seen (count_row b (row_of nid (Dict.get nid seen))) ids

unfoldable pub bucket : Results → List String → Bucket
unfolding bucket_loop
bucket seen ids = bucket_loop seen (record { p = 0; f = 0; rows = [] }) ids

-- `for k, (st, msg) in parse(rep, cfg).items(): add(seen, k, st, msg)`
unfoldable pub merge_report : Results → Results → Results
unfolding add
merge_report seen [] = seen
merge_report seen ((k, e) ∷ items) = merge_report (add seen k e.status e.message) items

-- The loop over `cfg["reports"]`, with a parser that reads a path.
unfoldable pub merge_reports : (String → Results) → Results → List String → Results
unfolding merge_report
merge_reports parse seen [] = seen
merge_reports parse seen (rep ∷ reps) = merge_reports parse (merge_report seen (parse rep)) reps

-- The message of a row that ctrf.json repeats: only a text that is not empty.
abbrev nonempty_message : Option String → Option String
nonempty_message none = none
nonempty_message (some m) = if m == "" then none else some m

ctrf_test : String → Row → Row
ctrf_test b t = record {
  name = "[" <> b <> "] " <> t.name;
  status = t.status;
  message = nonempty_message t.message;
}

-- ctrf.json: the tool, the summary and the tests.
pub record Ctrf : Type 0 where
  pub tool : String
  pub tests : ℕ
  pub passed : ℕ
  pub failed : ℕ
  pub rows : List Row

pub record Outcome : Type 0 where
  pub reward_json : Reward
  pub ctrf_json : Option Ctrf

abbrev or_unknown : Option String → String
or_unknown none = "unknown"
or_unknown (some s) = s

-- The part of `cmd_grade` after the reports are merged.
unfoldable pub conclude : Config → Results → Outcome
unfolding load_ids bucket stats ctrf_test
conclude cfg seen =
    let p2p = load_ids cfg.p2p_node_ids in
    let f2p = load_ids cfg.f2p_node_ids in
    let pr = bucket seen p2p in
    let fr = bucket seen f2p in
    let binary = if ltb 0 (length f2p) && (eqb fr.f 0 && eqb pr.f 0) then 1 else 0 in
    record {
      reward_json = stats f2p p2p binary false fr.p pr.p;
      ctrf_json = some (record {
        tool = or_unknown cfg.tool_label;
        tests = length p2p + length f2p;
        passed = pr.p + fr.p;
        failed = pr.f + fr.f;
        rows = map (ctrf_test "p2p") pr.rows ++ map (ctrf_test "f2p") fr.rows;
      });
    }

-- Whether the configured `node_id` is "suite.name".
abbrev pub by_suite : Option String → Bool
by_suite none = false
by_suite (some s) = s == "suite.name"

-- `cfg.get("format", "ctrf")`
abbrev pub format_name : Option String → String
format_name none = "ctrf"
format_name (some f) = f

-- The files that a path leads to: `none` where it cannot be read or parsed.
module _ (show : Json → String) (load_json : String → Option Json)
    (load_xml : String → Option (List TestCase)) where
  -- `PARSERS[cfg.get("format", "ctrf")]`
  unfoldable pub parser : Config → Result GradeError (String → Results)
  unfolding parse_ctrf parse_junit
  parser cfg =
      let fmt = format_name cfg.format in
      let ctrf = λ (path : String). parse_ctrf show (by_suite cfg.node_id) (load_json path) in
      let junit = λ (path : String). parse_junit (load_xml path) in
      if fmt == "ctrf" then ok ctrf else if fmt == "junit" then ok junit else err (key_error fmt)

  -- `cfg["reports"]`
  abbrev reports_of : Config → Result GradeError (List String)
  reports_of cfg = elim cfg.reports [ none ↦ err (key_error "reports") | some reps ↦ ok reps ]

  -- The merged results of all reports, `seen`.
  unfoldable pub gather : Config → Result GradeError Results
  unfolding parser merge_reports
  gather cfg = do parse ← parser cfg; reps ← reports_of cfg; ok (merge_reports parse [] reps)

  unfoldable pub cmd_grade : Config → List String → Result GradeError Outcome
  unfolding load_ids stats gather conclude
  cmd_grade cfg argv =
      if mem "--apply-failed" argv
      then ok (record {
        reward_json = stats (load_ids cfg.f2p_node_ids) (load_ids cfg.p2p_node_ids) 0 true 0 0;
        ctrf_json = none;
      })
      else do seen ← gather cfg; ok (conclude cfg seen)
