-- ===== src/Grader/Messages.antt =====
-- The failure messages that the merge keeps.
use deepswe_eval_lab.Base.{
  String, ◌≡◌, refl, Bool, true, not, ◌&&◌, Option, none, some, List, [], ◌∷◌, arith, ◌==◌, eq_iff,
  ltb, eqb, if◌then◌else◌, map,
}
use deepswe_eval_lab.Base.Dict
use deepswe_eval_lab.Base.Dict.{get-insert}
use deepswe_eval_lab.Grader.Status.{
  Status, rank, is_passed, Entry, Results, Case, kept_message, replacement, add,
}
use deepswe_eval_lab.Base.Json.{Json}
use deepswe_eval_lab.Grader.Reports.{ctrf_tests, ctrf_case, parse_ctrf}
use deepswe_eval_lab.Grader.Merge.{keep_some, ctrf_loop-eq-add_cases, add_cases, worst}

-- The first message, not empty, among the cases of an id that have the given status.
unfoldable pub first_message : String → Status → List Case → String
first_message k st [] = ""
first_message k st (c ∷ cs) =
    if c.node_id == k && (eqb (rank c.status) (rank st) && not (c.message == ""))
    then c.message
    else first_message k st cs

abbrev or_first : String → String → String
or_first a b = if a == "" then b else a

-- An entry, as the merge goes on with more cases of its id.
abbrev continue : String → Option Entry → List Case → Option Entry
continue k none cs = elim (worst k cs) [
  | none ↦ none
  | some st ↦ some (record { status = st; message = kept_message st (first_message k st cs) })
]
continue k (some e) cs = elim (worst k cs) [
  | none ↦ some e
  | some st ↦
      if ltb (rank e.status) (rank st)
      then some (record { status = st; message = kept_message st (first_message k st cs) })
      else some (record e {
        message =
            if is_passed e.status
            then e.message
            else or_first e.message (first_message k e.status cs);
      })
]

get-add :
    (res : Results) (j k : String) (st : Status) (msg : String)
    → Dict.get j (add res k st msg) ≡ (
        if k == j
        then (elim (replacement (Dict.get j res) st msg) [
          | none ↦ Dict.get j res
          | some e ↦ some e
        ])
        else Dict.get j res)
unfolding add
get-add res j k st msg = ground (
  arith,
  eq_iff k j,
  get-insert j k (record { status = st; message = "" }) res,
  get-insert j k (record { status = st; message = msg }) res,
)

abbrev below : Option Status → Status → Bool
below none st = true
below (some w) st = ltb (rank w) (rank st)

-- A status that no case of the id reaches has no message.
no_message :
    (k : String) (st : Status) (cs : List Case)
    → below (worst k cs) st ≡ true
    → first_message k st cs ≡ ""
unfolding worst first_message
no_message k st [] h = refl
no_message k st (c ∷ cs) h = ground (arith, no_message k st cs)

step :
    (k : String) (o : Option Entry) (c : Case) (cs : List Case)
    → continue k
        (if c.node_id == k
          then (elim (replacement o c.status c.message) [ none ↦ o | some e ↦ some e ])
          else o)
        cs
      ≡ continue k o (c ∷ cs)
unfolding worst first_message
step k none c cs = ground (arith, eq_iff c.message "", no_message k c.status cs)
step k (some e) c cs = ground (
  arith,
  eq_iff c.message "",
  eq_iff e.message "",
  no_message k c.status cs,
  no_message k e.status cs,
)

pub get-add_cases :
    (res : Results) (k : String) (cs : List Case)
    → Dict.get k (add_cases res cs) ≡ continue k (Dict.get k res) cs
unfolding add_cases worst first_message
get-add_cases res k [] = ground arith
get-add_cases res k (c ∷ cs) =
    rw (get-add_cases (add res c.node_id c.status c.message) k cs, get-add)
      (step k (Dict.get k res) c cs)

-- The entry of an id, from the cases of a report alone.
abbrev pub summary : String → List Case → Option Entry
summary k cs = elim (worst k cs) [
  | none ↦ none
  | some st ↦ some (record { status = st; message = kept_message st (first_message k st cs) })
]

-- In a CTRF report an id has an entry exactly if it has a case; the entry has the worst status of the
-- cases and, unless that is "passed", the first message among the cases with that status.
pub parse_ctrf-summary :
    (show : Json → String) (by_suite : Bool) (doc : Option Json) (k : String)
    → Dict.get k (parse_ctrf show by_suite doc)
      ≡ summary k (keep_some (map (ctrf_case show by_suite) (ctrf_tests doc)))
unfolding parse_ctrf Dict.get
parse_ctrf-summary show by_suite doc k =
    rw (ctrf_loop-eq-add_cases show by_suite [] (ctrf_tests doc))
      (get-add_cases [] k (keep_some (map (ctrf_case show by_suite) (ctrf_tests doc))))
